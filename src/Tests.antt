-- ===== src/Tests.antt =====
-- The tests: an operating system and a JSON library to run the program on, and runs of it.
mod Machine
mod Documents
mod Transfers
mod Calls
mod Replies
mod Conversations
mod Prompt
mod Live
mod Setups
mod Pools
mod Stops
mod Queues
mod Pair
mod Interleaved
mod Ends
mod Trickle
