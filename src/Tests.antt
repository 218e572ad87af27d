-- ===== src/Tests.antt =====
-- Runs of the definitions, and the theorems at concrete inputs.
mod Serial
mod Interrupts
mod Device
mod Packets
mod Sending
mod Host
mod Address
mod ProtMa
mod Sock
mod Os
mod Net
mod Program
