-- ===== src/Device.antt =====
-- internal/server/device/device.go: the requests of the devices. The middleware has put the device
-- into the request; a path is what is left behind the prefix of the route.
pub mod Enrollment
pub mod Publish
pub mod Consume
pub mod Keeps
pub mod Rows
pub mod Listing
pub mod Isolation
