-- ===== src/Tests.antt =====
-- Runs of the definitions on concrete inputs, and each theorem at an input that meets its hypotheses.
mod Sample
mod FrameTests
mod DnsTests
mod IpTests
mod ConnectTests
mod ServiceTests
mod CommandTests
mod SessionTests
mod ProxyTests
mod DeliveryTests
mod OutsideTests
mod ListenTests
mod StartupTests
mod NetworkTests
mod OrderTests
