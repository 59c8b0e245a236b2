-- ===== src/Lib.antt =====
-- SM: a server framework in C++ whose services exchange messages over TCP, NNG and HTTPS.
--
-- A message is a body behind a head. Utils/ has the big-endian numbers, the packet headers
-- (`packmaincmd3`, `uppackmaincmd3`), the base64 heads, the arguments of calls and query strings.
-- networkinterface/ carries messages: a channel reads frames off a socket, a splitting function or
-- a dealer takes the head off, the router tells the coroutine that waits for a response, and a
-- dealer calls the handler that configs/ has for the main and assistant command and packs its
-- response. The combined channel puts these together: `reqrep` numbers a request, registers it with
-- the router and waits for the notice of its sending and for its response; `startIO` reads the
-- network, gives a response to whoever waits for it, and has anything else handled and answered.
-- database/ has the handlers of users and the connections that queries go over, hotupdate/ the
-- files that are served, and inc/Apps.h the HTTP server.
--
-- Files, by the code that they model:
--   Base           shared names, Boolean tests, lists of native length, maps
--   Utils.Endian   Utils/Utils.cpp: packuint16/32 and unpackuint16/32
--   Utils.Packet   Utils/Utils.h: packmaincmd3, uppackmaincmd3, each overload a definition
--   Utils.Args     inc/templatefuncs.h: packArgs, unpackArgs; Utils.cpp: packstring, unpackstring
--   Utils.Query    Utils/Utils.cpp: parseQueryString
--   Utils.MainCmd, Utils.Heads   inc/enums.h and Utils/Utils.cpp: packcmdrep, parsecmd and kin
--   Net.Split      networkinterface/MessageSplitFuncs.cpp
--   Net.Frame      networkinterface/StreamNetDealer.cpp
--   Net.Platform   networkinterface/dealers/, PackUnpackManager.cpp
--   Net.Dealer     networkinterface/PackDealerMainSub.cpp, PackDealerNoMain.cpp, PackDealerNoHead.cpp
--   Net.Tcp        networkinterface/socket/TcpChannelImpl.cpp
--   Net.Stream     networkinterface/socket/TcpStreamHandler.cpp
--   Net.Channel    networkinterface/ChannelCombine.h: newReq
--   Net.Session    networkinterface/ChannelCombine.h: reqrep and startIO, with the queues of the router
--   Net.Router     networkinterface/MessageRouter.cpp, networkinterface.cpp: prepareReqRep and kin
--   Net.Manager    networkinterface/LocalNetManager.cpp: sendPack of a message
--   Net.Sockets    networkinterface/LocalNetManager.cpp: createPair, createTcpChannel, createRep,
--                  createReq, sendPack and recvPack of a text
--   Net.Pipe       networkinterface/FullDuplexChannel.cpp
--   Net.Local      networkinterface/LocalNetChannel.cpp
--   Net.Nng        networkinterface/nngs/ReqImpl.cpp; Net.Nng.Context: AsynRepImpl.cpp
--   Net.Deal       networkinterface/MessageRouter.cpp: start, its second coroutine
--   Conf.Routes    configs/Routers.cpp: addRouterTrans and its look-ups
--   Db.Users       database/CommonDBProcess.cpp: slogin, sgetUserGenInfo; UserManager.cpp
--   Db.Regist, Db.Admins   database/CommonDBProcess.cpp: sregist, sgetAllUsers; saddSysAdmin and kin
--   Db.Table       what the database promises of a table
--   Db.Pool        database/DBManager.cpp: GetConn, addConnect
--   Db.Connect     database/DBConnectManager.h, DBConnectTCP.cpp, DBConnectNNG.cpp: executeQuery
--   Files.Load     hotupdate/FileOp.cpp, _fileOpAsync.cpp
--   Files.Cache    hotupdate/FilePathMonitor.cpp: asyncGetResource, waitHotUpdate
--   Files.Event    hotupdate/CoEvent.cpp
--   Http.Apps      inc/Apps.h: _initHttp, requests of routes and their aborts
--   Tests          the theorems at concrete inputs
--
-- State is a record, an operation a function from the state to the new state with its result. A C++
-- string, view, deque or vector of bytes is a list of numbers; uint16_t and uint32_t are numbers
-- reduced by 2 ^ 16 and 2 ^ 32 where the code converts to them. A std::map is an association list.
-- A socket is the list of what its reads and writes end in, an exception being one outcome; a list
-- that ends is a socket that is waited for, and the result is `none` then. So the loops over a
-- socket are structural recursions. The one loop with fuel is the first of parseQueryString: each
-- round removes a byte at least, and the length of the string is fuel enough. A coroutine is cut at
-- its waits: each stretch is a step, and a run is any list of steps, so that the theorems hold in
-- every order that a scheduler chooses. The queues between coroutines take any number of entries,
-- where those of the source hold ten or sixteen and let the sender wait. Shared objects are
-- numbers: connections in a queue, files in a store with the counts of their shared pointers, which
-- destroys them with the last. Assertions are taken as compiled out, except where a flag tells
-- whether they are, since some contain calls or guard a pointer: in Net.Deal, Net.Session, Net.Pipe
-- and Net.Nng.
--
-- Parameters: the JSON library (`Json`: what is written is read back into a new variable), the
-- base64 library (`Base64`: four characters for three bytes, what is encoded is decoded), a table
-- of the database (`Table`), the concurrent queue (`Queue`: it gives what was put in, in any
-- order), the trie of paths (`FileMap`), and asio's timer (`Timer`); the laws of each are a record,
-- and Tests has concrete functions for all. Handlers of routes, the answers of peers and of the
-- system, and what NNG's functions return are arguments.
--
-- Not modelled: asio's scheduling, the NNG sockets of AsynRep, AsynReq and SyncReq, the accepting
-- and connecting of TCP sockets, the HTTP server but for the requests of routes, configuration
-- files, the singletons' start and end, the names of values, and the vendored libraries; logging is
-- left out throughout.
pub mod Base
pub mod Utils
pub mod Net
pub mod Conf
pub mod Db
pub mod Files
pub mod Http
pub mod Tests
