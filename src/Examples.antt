-- ===== src/Examples.antt =====
-- Runs of the models on small inputs. The parameters that stand for other programs are concrete here.
pub mod Numbers
pub mod Slots
pub mod Pictures
pub mod Speakers
pub mod Signaling
pub mod Accounts
pub mod Administration
pub mod Phones
pub mod Rooms
pub mod Dispatch
pub mod Calls
pub mod Compositor
