-- ===== src/Lib.antt =====
-- A model of the Rust code of the restore experiments: the patched Firecracker under
-- firecracker-build/fc-change-set/src, and the benchmark runner under restore-motivation/src.
--
-- Block is the virtio block device (vmm/src/devices/virtio/block/virtio). A driver puts
-- descriptor chains into the available ring. Block/Types has the data types of mod.rs and
-- request.rs; Block/Parse is `Request::parse`, Block/Finish `PendingRequest::finish`,
-- Block/Process `Request::rate_limit` and `Request::process`, Block/Trace trace.rs. Block/Queue
-- is the loop of `VirtioBlock::process_queue` in device.rs, which calls all of these for every
-- chain; Block/Device has the event handlers that call the loop, Block/Disk `DiskProperties` and
-- `update_disk_image`, Block/ConfigSpace `read_config` and `write_config`, Block/DriveConfig the
-- configurations, and Block/Setup `VirtioBlock::new`, `activate` and `drop`. Guest memory, the
-- rings, the rate limiter, the file engine, event descriptors and interrupts are code outside of
-- the repository: the record Host of Block/Host has their operations over an abstract world, and
-- Block/Queue/Laws the documented behaviour that the proofs about the rings use;
-- Block/Device/Completions has what the proof about completions takes from the Async engine.
-- Metrics are a list of the calls made on them; log lines are left out. The laws of the rings
-- are those of a driver that is well behaved and of buffers that do not overlap the rings: an
-- error of the virtqueue, such as an invalid available index, is modelled, and excluded by them.
--
-- Uffd is the page fault handlers (firecracker/examples/uffd). Uffd/Region is the page and
-- region arithmetic of uffd_utils.rs, Uffd/Copy its copies and unregistering over the ioctls of
-- userfaultfd, and Uffd/Dispatch the event loop of on_demand_handler.rs, over a record of the
-- operations that it calls; Uffd/Runtime is the poll loop that calls such a loop for every
-- descriptor. A panic is the result `panicked` of Run.
--
-- Uffd/Url is the URL of remote_range_handler.rs, Uffd/Http its client, from the request to the
-- bytes of a range, over a network that is a parameter, and Uffd/Remote its cache of chunks and
-- `serve_remote_pf`. The record RemoteFile of Uffd/Remote/Coherent says what a fetch must give;
-- Uffd/Http/Ranges proves the part of it that the client itself decides, the length,
-- Uffd/Http/Honest the bytes, for a server that answers a request for a range with that range,
-- and Uffd/Http/Pages puts the three together.
--
-- Vmm is vmm/src/lib.rs: Vmm/Vcpus the commands to the vCPU threads (resume, pause, save, dump)
-- over channels that are a part of the world, Vmm/Exit the exit event, where a channel is the
-- list of its pending responses, Vmm/Life `start_vcpus`, `save_state` and the drop of the Vmm,
-- Vmm/Config `full_config` and `get_mmds`, and Vmm/Filter the choice of the device state that
-- one benchmark restores.
--
-- Bench is restore-motivation/src/ops/mod.rs: Bench/Split shares the operations among the
-- workers, Bench/Usage accounts the resource usage, and Bench/Run is `run_external`, with the
-- outcome of every measured operation as a parameter, so that its properties do not depend on
-- the clock or on the interleaving of the workers. Bench/Gates is the start gate and the finish
-- gate of `run_external_with_prepare`, as turns of the threads in any order, and
-- Bench/Gates/Condvars their condition variables, on which a thread sleeps until another
-- notifies it. Bench/Ops is the table of the operations, and Bench/Args the arguments of
-- main.rs.
--
-- Netns is restore-motivation/src/ops/netns: Netns/Instance the names and addresses,
-- Netns/Command the command lines and how they are run, Netns/Spec the stages and the cleanup,
-- Netns/Vm the contexts, Netns/Shell the two operations that run the stages as shell commands,
-- and Netns/Batches the batches of threads of one of them. Launch is create_firecracker.rs,
-- which starts a process inside a context of Netns and removes it. Restore is vm_restore:
-- Restore and Restore/Prepare are resume_vcpus.rs, kick_virtio.rs and resume_vm.rs, whose
-- operations on a VMM are parameters, Restore/Common is restore_common.rs and snapshot_load.rs
-- over the record KvmHost of Restore/Kvm, Restore/Pools the operations that use a pool of
-- contexts, and Restore/Devices device_restore.rs. What the system answers is a parameter in all
-- of these, and the theorems hold for every answer: they speak of a journal of the commands, of
-- a log of the calls, or of the namespace that a thread is in.
--
-- Prelude has the shared notation: native lists, `Outcome` for Result, `Run` for code that can
-- panic, run out of fuel or, where a thread is joined, never return, text as code points with
-- numbers written and read in a base, and the bit lemma behind page rounding. Tests has small
-- machines that meet the hypotheses, and a run for each theorem.
--
-- Fuel: the loop over the available ring needs more fuel than there are waiting chains, since
-- every round takes one and only the last round adds one back; reading events needs more fuel
-- than there are unread events, and the event loop one round when nothing arrives meanwhile. The
-- loop over HTTP headers needs one more than there are lines, and an exact condition says when
-- it never ends. The loop over batches needs more than there are instances. The wait for a
-- socket has the 100 rounds of the source and needs no fuel. Theorems that speak of the end of
-- such a loop prove that this fuel is enough, or say that they are about a run that returns.
-- Sums that the code does on u64 wrap or saturate as the code has them.
--
-- Not modelled: the persistence of the block device, the mapping of the backing file and the
-- signal handlers of the fault handlers, the start gate of `run_external`, the barrier of
-- step_shell.rs, hash_cpu.rs and noop.rs, which keep nothing, the release of VMs and files that
-- are dropped, the methods of Vmm that only hand a call to a device, the aarch64 variants, the
-- table that main prints, and the Python and shell experiments.
pub mod Prelude
pub mod Block
pub mod Uffd
pub mod Vmm
pub mod Bench
pub mod Netns
pub mod Launch
pub mod Restore
mod Tests
