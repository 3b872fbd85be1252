-- ===== src/Env.antt =====
-- The parameters read from the environment: forkscan-changed/env.c.
mod Defs
mod Or
mod Smear
mod Bounds
mod Settings
mod Tests
