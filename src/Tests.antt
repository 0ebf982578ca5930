-- ===== src/Tests.antt =====
-- Runs of the model on concrete inputs, and the theorems at inputs that meet their hypotheses.
mod Dotted
mod ParserTests
mod IpAddrTests
mod ScannerTests
mod NetworkTests
mod ThreadingTests
mod OutputTests
mod ArpTests
mod AppTests
mod SshTests
mod RunTests
mod ListedTests
