-- ===== src/Tests.antt =====
-- The theorems at concrete states of the kernel of RADKernel/core/RADKernel_runtime.cpp.
mod Fixtures
mod DescriptorTests
mod PipeTests
mod ProcessTests
mod TtyTests
mod SocketTests
mod TableTests
mod ServiceTests
mod DatagramTests
mod ArpTests
mod FrameTests
mod TaskTests
mod FileTests
mod PathTests
mod ElfTests
mod FormatTests
