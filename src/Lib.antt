-- ===== src/Lib.antt =====
-- A model of pycoinnet, a Bitcoin client library on asyncio, and the theorems that it meets.
--
-- The program's parts. A `BitcoinPeerProtocol` (pycoinnet/peer) frames messages on a TCP stream;
-- `pycoinnet/message.py` parses the payloads and checks Merkle blocks; `pycoinnet/peergroup` keeps
-- what several peers offer and asks them for blocks, headers and transactions, on a
-- `BlockChainView` (pycoinnet/util) of the chain of headers; `pycoinnet/bloom.py` makes the filters
-- that a client loads into a peer; the example programs put these together to a wallet, a watcher
-- of blocks and a keeper of addresses.
--
-- The files.
-- Prelude: the types, operators and lemmas that the parts share. `Result` holds what a Python
--   function returns or raises; integers that may be negative are ℤ, all others ℕ.
-- Dict: a Python dict as an association list.
-- Chain: pycoinnet/util/BlockChainView.py. A `View` is the object; `add_tuples`, `set_tuples`,
--   `rewind`, `winnow` and `do_headers_improve_path` give the new object. The loops run on fuel:
--   the bisection has the number of tuples, of which a round leaves at most half, and the index
--   generators one step more than the index they start from, which a round lowers. Chain/Order is about the
--   order of tuples, Chain/Search about the bisection, Chain/Index about the dict of hashes,
--   Chain/Improve and Chain/Reorg about reorganisations, Chain/Locator and Chain/Winnow about the
--   index generators. `h.hash()` of a header is a field of it. Chain/Json has `as_json` and `from_json`,
--   with JSON and the texts of hashes as parameters.
-- TwoLevelDict: pycoinnet/util/TwoLevelDict.py. TwoLevelDict/Keys is about the object as a key sees it.
-- Merkle: `fixup_merkleblock` of pycoinnet/message.py. A `Walk` is what `recurse` changes, and
--   double_sha256 is a parameter. The halving loop has fuel for each transaction.
-- Peer: pycoinnet/peer/BitcoinPeerProtocol.py. Peer.antt parses one message from what the stream
--   will hold, Peer/Stream is the loop that delivers messages to queues, Peer/State the callbacks
--   of the transport. `parse_from_data` is a parameter of the loop, double_sha256 of all.
-- Message: pycoinnet/message.py, without the Merkle check. The streamer of pycoin is a parameter:
--   `ReadsBack` of Message/ReadBack is what it is documented to do, and Message/Streamer a small one that
--   does it. Message/Fields is about the structure strings, and Message/Sent joins them with the
--   framing of Peer.
-- Murmur: `murmur3` of pycoinnet/bloom.py, which Murmur/Reference compares with the hash on 32-bit
--   words.
-- Bloom: `BloomFilter` of pycoinnet/bloom.py. Bloom/Digits has the lemmas on the bits of a byte,
--   Bloom/Filter what one bit operation does, Bloom/Items what adding items does,
--   and Bloom/Sizes has the size formulas, with floating point numbers as a parameter.
-- Store: pycoinnet/util/BlockChainStore.py, with the file as its bytes. The loops have fuel for each
--   byte of the file.
-- Inv: pycoinnet/InvItem.py.
-- Fetcher: pycoinnet/peer/Fetcher.py. A `FetcherState` is the object; `fetch`, `time_out` and
--   `forget` are the steps of the waiting side, `getdata_loop` the messages sent, and `fetch_loop` the
--   loop over the messages received, which has fuel for each message.
-- Collector: pycoinnet/peergroup/InvCollector.py. `on_inv`, `on_notfound` and `on_end` are what
--   `_watch_peer` does, `advertise_round` is a round of `_advertise_to_peer`. Collector/Waiting is the
--   loop of `fetch`, on tasks that are numbers. It uses no other part but Inv;
--   the handlers use its `advertise_item`.
-- Handlers: pycoinnet/peergroup/BlockHandler.py and TxHandler.py. A handler of a message gives the
--   messages that it sends. The block chain, and the hash and header of an object, are parameters.
--   Handlers/Watch is about the tasks behind the queues that Collector fills.
-- Standards: pycoinnet/helpers/standards.py, the handshake and the ping and pong tasks. A `Tick` is a
--   moment at which the ping task may run, with the time and what arrived. Standards/Version is the
--   data of a version message, and Standards/Requests the requests for addresses and headers.
-- Address: pycoinnet/PeerAddress.py, with `parse_struct` of pycoin as a parameter.
-- DictStore: pycoinnet/util/DictStoreSimple.py, with its directory as a dict from file names to bytes.
--   DictStore/Refinement compares runs of its operations with runs on a mapping.
-- Blockfetcher: pycoinnet/peergroup/Blockfetcher.py. `fetch_round` is a round of the outer loop of
--   `fetch_from_peer`, and `pick` its first inner loop; what is done, and how fast, is an input.
--   Blockfetcher/Picks has the induction over `pick` that the other modules use, and Blockfetcher/Ties the
--   condition on the queue under which Python can compare its items. The product
--   1.4 * per_loop is computed on doubles, which `round_double` rounds to.
-- Getheaders: pycoinnet/peergroup/getheaders.py. `run_ff` is an iteration of `_run_ff` over a `View`
--   of Chain; it calls `do_headers_improve_path` and `winnow` of that module.
-- Forwarder: pycoinnet/peergroup/fast_forwarder.py, with the block chain as a parameter. `run_ff` is an
--   iteration of `_run_ff`; the loop over missing parents has fuel for its rounds, of which one for
--   each reply of the peer and one more are enough, where any number is.
-- Bootstrap: pycoinnet/helpers/dnsbootstrap.py. A `Crowd` is the queue of superpeers with the tasks that
--   share it, and an `Event` one step of one of them; `talk` is what a superpeer answers.
-- Spv: pycoinnet/examples/spvclient.py: `handle_reorg`, which is the callback of Getheaders, and
--   `feed_blocks`, which takes up what it puts out.
-- Watcher: pycoinnet/examples/blockwatcher.py, with the functions that pycoinnet/examples/Client.py
--   repeats. `process_change` is an iteration of `block_processor`, without the directory that it
--   makes for the time; `write_blocks` has a hundred blocks as its fuel, as the source has. Watcher/Left
--   has what is left in the queue and what the file names.
-- Keeper: pycoinnet/examples/address_keeper.py. `AddressDb` is the data base, and a file is its text
--   or missing. Keeper/Saved is about the file, Keeper/Updates about additions and removals.
-- Wallet: pycoinnet/examples/wallet.py: the payables, the choice of coins, and the exclusion of those
--   that a transaction spends. Wallet/Fetch is the start of `wallet_fetch`, with the filter of the wallet.
--
-- Not modelled: logging, sockets and DNS, JSON and the code of pycoin; the main functions of the
-- example programs, the Client, which puts the parts together, and the loops that open connections.
mod Prelude
pub mod Dict
pub mod Chain
pub mod TwoLevelDict
pub mod Merkle
pub mod Murmur
pub mod Bloom
pub mod Store
pub mod Inv
pub mod Keeper
pub mod Message
pub mod Bootstrap
pub mod Forwarder
pub mod Watcher
pub mod Wallet
pub mod Getheaders
pub mod Spv
pub mod Blockfetcher
pub mod DictStore
pub mod Fetcher
pub mod Collector
pub mod Handlers
pub mod Standards
pub mod Address
pub mod Peer
