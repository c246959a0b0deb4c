-- ===== src/AsyncIo/Race.antt =====
-- What an event does that comes between the two steps of AsyncIOHandler::registerRead
-- (src/thread/AsyncIOHandler.cpp).
