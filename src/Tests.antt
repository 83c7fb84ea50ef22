-- ===== src/Tests.antt =====
-- Runs of the model at concrete inputs, and each theorem at an input that meets its hypotheses.
mod Extents
mod Frames
mod Pages
mod Memory
mod Bitmap
mod Fill
mod Kernel
mod Heap
mod Paging
mod Mm
mod Tasks
mod Log
