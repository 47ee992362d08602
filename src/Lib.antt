-- ===== src/Lib.antt =====
-- The SCPI parser library libscpi (libscpi/src, libscpi/inc/scpi) in C: an instrument hands it the
-- bytes it receives, the library splits them into program messages, finds the commands in a table,
-- calls their handlers, and keeps the error queue and the status registers of IEEE 488.2.
--
-- Parts, and the files that model them:
--   libscpi/src/fifo.c     Fifo: the ring of errors. Fifo/Queue is the bounded queue it stands for.
--   libscpi/inc/scpi/types.h  Context: the fields of `scpi_t` that errors and registers use. Session:
--                          the other fields, as SCPI_Parse and the handlers read and change them.
--   libscpi/src/ieee488.c  Register: SCPI_RegGet, SCPI_RegSet, SCPI_RegSetBits, SCPI_RegClearBits
--                          and the tables `scpi_reg_details` and `scpi_reg_group_details`.
--                          Command/Core: the handlers of the common commands. Command: SCPI_CoreCls
--                          and SCPI_CoreOpc on a context.
--   libscpi/src/minimal.c  Command/Minimal: the handlers of the required commands. Report:
--                          SCPI_SystemErrorNextQ. Command: SCPI_StatusPreset on a context.
--   libscpi/src/error.c    ErrorQueue: SCPI_ErrorInit, SCPI_ErrorClear, SCPI_ErrorPop,
--                          SCPI_ErrorCount, SCPI_ErrorPushEx, SCPI_ErrorPush and the static
--                          functions behind them. Report: SCPI_ErrorTranslate.
--   libscpi/src/lexer.c    Lexer: the recognisers of the tokens of a program message; `program_header`
--                          is scpiLex_ProgramHeader, and so on. Headers are in Lexer/Header, strings
--                          and expressions in Lexer/Quoted, blocks in Lexer/Block, numbers and
--                          mnemonics in Lexer/Number, separators in Lexer/Separator.
--   libscpi/src/parser.c   Message: scpiParser_parseProgramData, scpiParser_parseAllProgramData and
--                          scpiParser_detectProgramMessageUnit, which split a message into units.
--                          Dispatch: SCPI_Parse, processCommand and findCommandHeader. Input:
--                          SCPI_Input. Param: SCPI_Parameter and the functions that read a
--                          parameter, with texts in Param/Text and choices in Param/Choice. Result:
--                          SCPI_ResultText, SCPI_ResultArbitraryBlock, the integers and the helpers
--                          behind them. Report: SCPI_ResultError.
--   libscpi/src/utils.c    Format: UInt32ToStrBaseSign, UInt64ToStrBaseSign and what calls them.
--                          Pattern: compareStr, compareStrAndNum and matchPattern, and the functions
--                          that find separators. Match: matchCommand, with
--                          SCPI_Match of libscpi/src/parser.c. Dispatch:
--                          composeCompoundCommand. StaticHeap: scpiheap_init,
--                          scpiheap_strndup, scpiheap_get_parts and scpiheap_free. Swap:
--                          SCPI_Swap16, SCPI_Swap32, SCPI_Swap64.
-- Input collects bytes and hands complete messages to Dispatch; Dispatch lets Message cut a message
-- into units, completes a compound header, finds the row of the command table with Match, and calls
-- its handler; handlers read with Param, answer with Result, and report through ErrorQueue. The
-- error queue is the ring of a context; an error sets bits of the event status register, a bit of a
-- register is summarised in the status byte, and the status byte raises the service request.
--
-- State is passed explicitly: a function that changes `*context`, `*fifo` or `*state` returns the
-- new value. A call of a callback of the interface is recorded in `Context.events`, with what it
-- was told; a callback that is absent is not called. A handler of the command table is any function
-- of a session that returns whether it succeeded and the new session. The message that SCPI_Input
-- passes to SCPI_Parse lies in the input buffer: a handler finds the buffer with the headers
-- composed in it, and the bytes, size and position that it leaves there are those that the loops go
-- on with (`Parsing.shared`). The bytes of the parameters are read from the message as it is when
-- the handler is called. strtol and its kin are not code of the library and are parameters. Values
-- of `scpi_reg_val_t` are natural numbers, and `~x` is the complement in sixteen bits; a `long`
-- stored in an `int32_t` keeps its low 32 bits. The heap is a supply of answers of `malloc` and the
-- numbers of texts allocated and freed. A character is a byte.
--
-- Fuel: the loop of SCPI_RegSet runs on three rounds (`set_fuel`), for a condition register, its
-- event register and the status byte. The loops over the rows of a table and over the bytes of a
-- message are structural; the loop over the stored errors runs on their number and one more. The
-- loops of the lexer and of the parser that call other skipping functions run on the number of
-- bytes left and one more, as every round takes a byte; so do the loop of SCPI_Parse over the units
-- and the loops that copy a text. The loop of matchCommand runs on the length of the pattern and one
-- more, the loop of SCPI_Input on the bytes that wait and two more. The loops over the digits of an
-- integer run on 65 rounds (`digit_fuel`): the first divisor is below 2 ^ 64, and each round divides
-- it by two at least.
--
-- Not modelled: custom registers (USE_CUSTOM_REGISTERS); SCPI_Init, which only fills the fields; an
-- error queue over the static heap, as the build modelled has `malloc`; floating point, in
-- parameters and in results; the arrays at the end of libscpi/src/parser.c; SCPI_IsCmd and
-- SCPI_CommandNumbers, which call matchCommand for a handler; expressions (expression.c) and units
-- (units.c); the examples, which only call the library, and the firmware in esp32s3_scpi_async,
-- which does not use it.
pub mod Base
pub mod Fifo
pub mod Context
pub mod Register
pub mod ErrorQueue
pub mod Lexer
pub mod Message
pub mod Format
pub mod Pattern
pub mod Swap
pub mod Result
pub mod Match
pub mod Session
pub mod Dispatch
pub mod Input
pub mod Param
pub mod Report
pub mod StaticHeap
pub mod Command
