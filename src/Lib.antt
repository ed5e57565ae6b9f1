-- ===== src/Lib.antt =====
-- QTrans translates texts with a local language model. This library models its core, the code under
-- app/src and libs/sentbreak, function by function, and proves what the parts promise.
--
-- The parts and their files:
-- - Text.Segmenter: libs/sentbreak/src/segmenter.cpp, the boundaries of sentences (`decode`,
--   `break_at`, `boundaries`, `split`).
-- - Text.Utf8: app/src/runtime/internal/text/utf8.cpp and utf8_stream_buffer.cpp over the validator of
--   simdutf, which is a parameter with the laws that `Utf8Laws` and `ReportsPosition` name. Text.Ascii
--   is a validator that has them.
-- - Text.Chunker: chunker.cpp and sentence_splitter.cpp beside it, over the segmenter and `Text.Utf8`.
-- - Host.Scheduler: app/src/runtime/internal/host/invocation_scheduler.cpp, four queues in a record.
-- - Host.ModelHost: model_host.cpp beside it. Its state is the record `Host`; each critical section of
--   `ModelHost::Impl` is a function on it, and a run is a list of such sections in any order
--   (Host.ModelHost.Steps), which stands for the threads. It admits to the scheduler and takes from it.
-- - Batch.FileHandler: app/src/batch/batch_file_handler.cpp, documents cut into segments
--   (`PlainTextHandler`, `SrtHandler`, `assemble_document`), with the types of Batch.Types.
-- - Batch.Store: app/src/batch/batch_store.cpp: Codec has its escapes and key-value lines, Format the
--   text of a queue (`serialize`), Reader how it is read (`deserialize`), Disk the queue file, its
--   temporary file and the atomic write, Entries the operations on the entries, Files the calls that
--   read, change and write. Decimal numbers are those of Base.Decimal.
-- - Batch.Controller: app/src/batch/batch_controller.cpp. Its state is the record `Controller`, with the
--   entries of the store as a list; Advance has `advanceBatch`, Handlers the other slots, and a run is
--   a list of calls and events in any order (Batch.Controller.Steps). The model, the clock, the
--   output files and the ids of jobs are answers of the `World`.
-- - Translate.Http: app/src/translate/http_request_parser.cpp, with the functions of Qt on the text of
--   headers as parameters.
-- - Translate.Cancellation: app/src/translate/inference_types.cpp, the cancellation of one job.
-- - Translate.Service: app/src/translate/inference_service.cpp, its table of jobs. Each section under the
--   mutex is a function on the record `Service`; signals and calls of the host are its effects. What a
--   thread has still to do behind a section of `submitJob` or `handleCoreEvent` is a task
--   (Translate.Service.Tasks), and a run is a list of sections, tasks, answers and events in any order
--   (Translate.Service.Steps).
-- - Translate.Chats: the chats of the local API in the same file (`doSubmitApiChat`, `finishApiChat`,
--   `ApiChatBridge`), in the same way.
-- - Download.Service: app/src/download/download_service.cpp. Queued calls and the worker thread are
--   fields of its state; `shutdown` has two sections.
-- Base has the shared helpers: Boolean tests, lists and maps over the native numbers, byte
-- strings, decimal numbers, results.
--
-- Numbers are natural numbers; offsets and counts of the source do not come near the bounds of
-- `size_t`. A loop is recursion on a list, or on fuel that is as large as the bytes, lines or rounds
-- it has left, since each round passes at least one of them; the comment at the loop says which.
--
-- Not modelled: the user interface, the window system, settings, logging and paths, which are input
-- and output; the language model runtime, sockets and JSON, which belong to other libraries; the
-- loading of models by the inference service, and the files that the batch controller adds, migrates
-- and saves. Of the operating system the caller says which calls on the queue file fail, and through
-- which sizes the temporary file grows; a crash is one of the process, so that what was written
-- stays. An exception in a slot of the batch controller comes behind any changes of states, outputs
-- and saved ends of jobs (`Change` in Batch.Controller.Steps).
pub mod Base
pub mod Text
pub mod Host
pub mod Batch
pub mod Translate
pub mod Download
