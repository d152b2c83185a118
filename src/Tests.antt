-- ===== src/Tests.antt =====
-- Each theorem with conditions, applied where they hold.
mod Protocol
mod Files
mod Requests
mod Links
mod Cached
mod Timers
mod Answers
mod Replies
mod Sessions
mod Searches
mod Deliveries
mod Feeds
mod Servers
