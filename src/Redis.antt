-- ===== src/Redis.antt =====
-- Redis, which every stateful service of backend/app keeps its shared state in. It is not part of
-- the repository: each child states the commands that the services send as a record, with the
-- documented effect of each command as a law, and the services take such a record as a parameter.
pub mod Values
pub mod Counters
pub mod Scores
pub mod Ranks
