-- ===== src/Tests.antt =====
-- Runs of the modelled code on concrete inputs, and uses of the theorems at them.
mod OnText
mod OnBitmap
mod OnMemory
mod OnHeap
mod OnVector
mod OnLinkedList
mod OnScheduler
mod OnKernel
mod OnDevices
mod OnFat
mod OnConsole
mod OnModules
