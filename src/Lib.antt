-- ===== src/Lib.antt =====
-- The Inferno game server, a C++ program of several servers, and what of it is modelled here.
--
-- Packets/: the packets that game clients and the server exchange. Packets.antt holds the modules
-- of the fifteen packet classes, one for each file of Packets/ (Packets/GPing.antt is
-- G_Ping_Packet.cxx and .h), and of the layers below them: Packets/Packet.antt, EventPacket.antt,
-- SyncPacket.antt and ProtocolPacket.antt (add_header, deserialize, get_header_size). Memory.antt
-- is the buffer: a byte for each offset, little-endian values. Codec.antt is the interface that
-- each class fills, and Kinds.antt states for all of them what it gives. Enumerations.antt has
-- the enumerations of the headers and Dispatch.antt which of their values a receiver gets.
--
-- NavGraph: Server_AI/Graph.cxx and Vertex.cxx, the graph on which the game's AI finds its way:
-- add_vertex, add_edge, both get_distance and both get_closest_vertex, and parse_vl_file and
-- parse_al_file, with strtok and atoi (NavGraph/Text.antt): a line of each in Parse.antt, the
-- loops and the constructor from two files in Files.antt; Second.antt has the other constructor,
-- the destructor and A_star, and a second graph. std::vector::at throws `out_of_range`.
--
-- LoginServer/: GameServer/LoginServer/server/LoginServer.cxx. The login server forks a child for
-- each connection (Requests.antt: start, get_request_type); the child logs a user in (Login.antt:
-- login_user) or signs one up (Signup.antt: signup_user, recv_password). Secure.antt is the way
-- to an accepted TLS connection (fetch_ssl_context, fetch_diffie_hellman_handle,
-- rng_get_AES_str), Reads.antt the loops over SSL_read, Ports.antt the next port, and Auth.antt
-- the notification of the chat and the match server (chat_server_auth, match_server_auth). A
-- handler, there and in LoginClient, is a function from the log of actions so far to the actions
-- then and an outcome (Base/Handlers.antt); what clients, the database, OpenSSL and the hash
-- answer are arguments. Launch.antt is the constructor and main (launcher.cxx): from the
-- addresses of getaddrinfo to the children; Closing.antt the destructor, with the children that
-- run it, and log_connection_error; Closed.antt what a login gets then. Reaping.antt is
-- handle_sigchild as a step relation between the service loop, its children and the system.
-- Database.antt puts a database behind the children, with what SQL promises of a table as
-- hypotheses, and the session with it, which a child that returns from main closes: a child uses
-- it once, and the children are taken in the order in which they do (that their requests do not
-- mix on the one connection that they share is taken for granted). Inserts.antt is which rows a
-- child inserts, Directory.antt the specification that the server and the table implement, and
-- Lives.antt what it means for a login.
--
-- LoginClient: GameServer/LoginServer/client/client.cxx, the client that logs in and signs up
-- (login, signup, connect_ssl for the part that both share, service for the loop of main).
-- Wire.antt carries what one side sends to the other, each short by one recv and each write by
-- one read; Exchange.antt and Enrolment.antt compose the client with the server of LoginServer/,
-- for a login and for a sign-up, and EndToEnd.antt the two. Returning.antt puts the server's
-- other children and its database between them.
--
-- TokenTable: GameServer/ChatServer/ChatServer.cxx. The chat server is told of logged-in users by
-- datagrams of the login server and keeps them for five minutes: receive_new, scrub_list, update.
-- Accounts.antt is its specification, an account for each name, and Update.antt the constructor
-- and the loop. MatchMaker: Linear/MatchMaker.cxx has a copy of that code, translated again, and
-- a constructor of its own. Notification: chat_server_auth and match_server_auth of the login
-- server composed with receive_new of the two.
--
-- Session: GameServer/ChatServer/Session.cxx. The clients of two teams (addClient, removeClient),
-- and the loop around select that accepts clients and passes on what they send (enter_main_loop,
-- handle_accept, handle_recv). What select, accept and recv give in a pass is its argument.
-- Launch.antt has the constructors, start and main (launcher.cxx).
--
-- MatchServer: GameServer/MatchServer. The clients and the rating of a match (MatchServer.cxx),
-- and the turns of the threads of Acceptor.cxx and Converter.cxx, in any order, on a queue that
-- is Boost's, and a parameter here (Queue.antt has what Boost documents of it). Traffic.antt has
-- the enumeration of actions (netdefs.h), and the game client on the other side.
--
-- Sockets: Sockets/Socket.cxx (the registry of ports; over histories of constructors in
-- Refusals.antt, with destructors in Lifetimes.antt), UDP_Socket.cxx (the loops over addresses),
-- Unreliable_UDP_Socket.cxx (strings and shorts, and in Peers.antt whom they go to), Client.cxx
-- (timeouts).
--
-- SecureSocket: Sockets/Secure_Socket.cxx, the constructors of a socket for TLS, its set-up
-- (ssl_initialize, fetch_ssl_context, initialize_server, initialize_client) and its destructor,
-- with what OpenSSL allocates.
--
-- Listeners: the functions that set a socket up in a loop over the addresses of getaddrinfo:
-- LoginServer::initialize, Session::start, Acceptor::setup, main of the login client, and
-- setup_UDP_client_connection of Linear/server_utils.cxx. Usable.antt says what they look for,
-- without a loop.
--
-- GameClient: GameServer/MatchServer/client/game_client.cxx, the client that sends a packet every
-- 17 milliseconds, with the differences of its times in ints.
--
-- MatchRequest: Linear/net_defs.cxx and serialization.cxx, the request for a match:
-- build_match_request, serialize_match_request, deserialize_match_request.
--
-- ServerUtils: Linear/server_utils.cxx, the printing of a hash (hash_SHA_256) and the set-up of
-- connections (setup_TCP_connection, setup_UDP_server_connection).
--
-- Base: the names that the modules share, lists over the native numbers, results, bytes and C
-- strings, and signed integers.
--
-- Numbers and bounds: fields have the width of their C++ types, and conversions are written out
-- (% 2^w, to_int, to_size); behaviour that C++ leaves undefined is an error of the model (Fault,
-- Halt, Option, Errorcode.undefined). Loops are structural recursion on their input. The loop
-- over descriptors in Session has fuel, 1024: descriptors in a set are below FD_SETSIZE, which is
-- that number. The fuel of the loops over a graph's files is the number of turns made, since they
-- have no end. Loops that wait for input end with `blocked`, `waits` or `waiting` where the input
-- given ends.
--
-- Not modelled: logs and console output; A_star beyond its first two lines, create_session and
-- get_requests, whose bodies are missing or empty; TCP_Socket, which does not compile; the
-- transfers of Secure_Socket, whose bodies are empty; the launchers that only make a server or a
-- connection, or do not compile; get_in_addr and timestamp, which serve messages; and the copies:
-- Linear/LoginServer.cxx, Session.cxx and ChatServer.cxx differ from the files of GameServer/ in
-- names only, but that create_session of Linear/ChatServer.cxx returns true, and the
-- server_utils.cxx of the servers from that of Linear/ in having fewer functions.
pub mod Base
pub mod GameClient
pub mod Listeners
pub mod LoginClient
pub mod LoginServer
pub mod MatchMaker
pub mod MatchRequest
pub mod MatchServer
pub mod NavGraph
pub mod Notification
pub mod Packets
pub mod SecureSocket
pub mod ServerUtils
pub mod Session
pub mod Sockets
pub mod TokenTable
