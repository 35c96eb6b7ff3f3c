-- ===== src/Tests.antt =====
-- Concrete runs of the models, and each property at a concrete input.
mod Data
mod Assets
mod Recovering
mod Saves
mod Blocking
mod Stores
mod Streams
mod Videos
mod Hydrating
mod Library
mod Panels
mod Sessions
mod Editing
mod Configuring
mod Following
mod Generating
