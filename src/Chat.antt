-- ===== src/Chat.antt =====
-- select/chat-server: the server's table of clients and its threads, the client's program, and a message
-- on its way from one client to the others.
pub mod Server
pub mod Client
pub mod Conversation
