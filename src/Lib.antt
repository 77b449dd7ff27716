-- ===== src/Lib.antt =====
-- Verification of the core of the FINN C++ driver, which packs values into bytes, hands them to
-- kernels on an FPGA through buffers of the XRT runtime, and unpacks what comes back.
--
-- The parts, from the bottom up, with the code that each models:
--   Prelude, Bytes    shared names, lists and Boolean tests over native numbers, results of calls,
--                     powers of two, bit operations on fields, numbers as bytes
--   Bitset            src/FINNCppDriver/utils/CustomDynamicBitset.h: `DynamicBitset`
--   Datatypes         src/FINNCppDriver/utils/FinnDatatypes.hpp: the classes below `Datatype`
--   Packing           src/FINNCppDriver/utils/DataPacking.hpp: `packImpl`, the loops of `unpack` and
--                     what they call; Packing.Pack has `pack` and `unpack`, with the conversion of
--                     fixed-point numbers, Packing.Multi the functions on folded inputs and outputs,
--                     Packing.Shuffle the bit reversal, Packing.Reversed the byte one
--   Utils             src/FINNCppDriver/utils/FinnUtils.h: sizes of buffers and shapes; Utils.Floats
--                     has `isInf`, `isNaN` and `ceil`, Utils.Text `shapeToString`
--   Allocator         src/FINNCppDriver/utils/AlignedAllocator.hpp
--   MdSpan            src/FINNCppDriver/utils/DynamicMdSpan.hpp
--   Types             src/FINNCppDriver/utils/Types.h and the structures of ConfigurationStructs.h
--   Configuration     src/FINNCppDriver/utils/ConfigurationStructs.h: configuration files
--   Circular          the interface of boost::circular_buffer, as far as it is called
--   RingBuffer        src/FINNCppDriver/utils/RingBuffer.hpp
--   Buffers           src/FINNCppDriver/core/DeviceBuffer: DeviceBuffer.hpp, SyncDeviceBuffers.hpp
--   Handler           src/FINNCppDriver/core/DeviceHandler.cpp and DeviceHandler.h
--   Async             src/FINNCppDriver/core/DeviceBuffer/AsyncDeviceBuffers.hpp
--   Driver            src/FINNCppDriver/core/Accelerator.cpp and BaseDriver.hpp
--   Program           src/FINNCppDriver/FINNDriver.cpp
--
-- How they interact: `Driver.infer` stores packed bytes through `Handler.store_unchecked`, runs,
-- waits and reads every handler, and returns the data of one output buffer. `Handler` works on any
-- buffer classes that fill the interface `DeviceBuffers`; `Handler.Sync` fills it with those of
-- `Buffers` and `Handler.Async` with those of `Async`, around which `Driver.Async` has the sessions
-- of a driver for asynchronous inference. `Driver.Typed` packs values for `infer` and unpacks its
-- results. `Packing` uses `Bitset` for its output. `Async` puts a `RingBuffer` between clients and a
-- thread that works on a buffer of `Buffers`. Each function keeps its name, in lower case with
-- underscores; a constructor is `new` or `make`.
--
-- Conventions. A function that changes an object returns the new one beside its result. A call ends
-- in `ok` or in `err` with the exception thrown; `undefined` stands for accesses outside an object
-- and `blocked` for a wait for another thread. A value of an integral C++ type of `w` bytes is its
-- pattern, a number below `2 ^ (8 * w)`, and what wraps is written with `%`. A `size_t` has 64 bits,
-- `int` and `unsigned` have 32, and bytes lie in little-endian order. Three recursions are on fuel:
-- `Utils.bit_width` on as much as its argument, which it halves, and the loop of `MdSpan.chunks` on
-- as much as there are elements, of which each round takes at least one as long as the last
-- dimension is positive, and `Buffers.Wait.busy_wait` on any number above that of the first read
-- that shows an idle kernel.
--
-- What other code does comes in as a parameter: the circular buffer and the JSON library with their
-- documented laws, the existence and contents of files, `std::stoi`, `aligned_alloc`, random
-- numbers, the conversions of floating-point numbers in `pack` and `unpack`, the addresses of XRT
-- buffer objects, and what a transfer from the device leaves in memory. Calls to XRT are recorded in
-- the order in which they happen. The condition variable of `RingBuffer` is not modelled: a thread
-- that waits takes its step once its condition holds.
--
-- Not modelled: the option parser and the clocks of the program, logging, tests and benchmarks.
-- `getResults` and the overloads of `inferSynchronous` for vectors are left out: no instantiation of
-- them compiles.
pub mod Prelude
pub mod Bytes
pub mod Bitset
pub mod Utils
pub mod MdSpan
pub mod Datatypes
pub mod Packing
pub mod Types
pub mod Allocator
pub mod Configuration
pub mod Circular
pub mod RingBuffer
pub mod Buffers
pub mod Async
pub mod Handler
pub mod Driver
pub mod Program
