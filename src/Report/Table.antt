-- ===== src/Report/Table.antt =====
-- libscpi/inc/scpi/error.h: LIST_OF_ERRORS, with the errors of the full list.
use Prim.Native.String.{String}
use scpi_parser.Base.{List, [], ◌∷◌, Bytes, ℤ, pos, negsuc, text_bytes}

-- A number with its text, `X(def, val, str)` or `XE(def, val, str)`.
pub record ErrorText : Type 0 where
  pub error_code : ℤ
  pub description : Bytes

abbrev row : ℤ → String → ErrorText
row n s = record { error_code = n; description = text_bytes s }

abbrev pub list_of_errors : List ErrorText
list_of_errors =
    row (pos 0) "No error"
    ∷ row (negsuc 99) "Command error"
    ∷ row (negsuc 100) "Invalid character"
    ∷ row (negsuc 101) "Syntax error"
    ∷ row (negsuc 102) "Invalid separator"
    ∷ row (negsuc 103) "Data type error"
    ∷ row (negsuc 104) "GET not allowed"
    ∷ row (negsuc 107) "Parameter not allowed"
    ∷ row (negsuc 108) "Missing parameter"
    ∷ row (negsuc 109) "Command header error"
    ∷ row (negsuc 110) "Header separator error"
    ∷ row (negsuc 111) "Program mnemonic too long"
    ∷ row (negsuc 112) "Undefined header"
    ∷ row (negsuc 113) "Header suffix out of range"
    ∷ row (negsuc 114) "Unexpected number of parameters"
    ∷ row (negsuc 119) "Numeric data error"
    ∷ row (negsuc 120) "Invalid character in number"
    ∷ row (negsuc 122) "Exponent too large"
    ∷ row (negsuc 123) "Too many digits"
    ∷ row (negsuc 127) "Numeric data not allowed"
    ∷ row (negsuc 129) "Suffix error"
    ∷ row (negsuc 130) "Invalid suffix"
    ∷ row (negsuc 133) "Suffix too long"
    ∷ row (negsuc 137) "Suffix not allowed"
    ∷ row (negsuc 139) "Character data error"
    ∷ row (negsuc 140) "Invalid character data"
    ∷ row (negsuc 143) "Character data too long"
    ∷ row (negsuc 147) "Character data not allowed"
    ∷ row (negsuc 149) "String data error"
    ∷ row (negsuc 150) "Invalid string data"
    ∷ row (negsuc 157) "String data not allowed"
    ∷ row (negsuc 159) "Block data error"
    ∷ row (negsuc 160) "Invalid block data"
    ∷ row (negsuc 167) "Block data not allowed"
    ∷ row (negsuc 169) "Expression error"
    ∷ row (negsuc 170) "Invalid expression"
    ∷ row (negsuc 177) "Expression data not allowed"
    ∷ row (negsuc 179) "Macro error"
    ∷ row (negsuc 180) "Invalid outside macro definition"
    ∷ row (negsuc 182) "Invalid inside macro definition"
    ∷ row (negsuc 183) "Macro parameter error"
    ∷ row (negsuc 199) "Execution error"
    ∷ row (negsuc 200) "Invalid while in local"
    ∷ row (negsuc 201) "Settings lost due to rtl"
    ∷ row (negsuc 202) "Command protected"
    ∷ row (negsuc 209) "Trigger error"
    ∷ row (negsuc 210) "Trigger ignored"
    ∷ row (negsuc 211) "Arm ignored"
    ∷ row (negsuc 212) "Init ignored"
    ∷ row (negsuc 213) "Trigger deadlock"
    ∷ row (negsuc 214) "Arm deadlock"
    ∷ row (negsuc 219) "Parameter error"
    ∷ row (negsuc 220) "Settings conflict"
    ∷ row (negsuc 221) "Data out of range"
    ∷ row (negsuc 222) "Too much data"
    ∷ row (negsuc 223) "Illegal parameter value"
    ∷ row (negsuc 224) "Out of memory"
    ∷ row (negsuc 225) "Lists not same length"
    ∷ row (negsuc 229) "Data corrupt or stale"
    ∷ row (negsuc 230) "Data questionable"
    ∷ row (negsuc 232) "Invalid version"
    ∷ row (negsuc 239) "Hardware error"
    ∷ row (negsuc 240) "Hardware missing"
    ∷ row (negsuc 249) "Mass storage error"
    ∷ row (negsuc 250) "Missing mass storage"
    ∷ row (negsuc 251) "Missing media"
    ∷ row (negsuc 252) "Corrupt media"
    ∷ row (negsuc 253) "Media full"
    ∷ row (negsuc 254) "Directory full"
    ∷ row (negsuc 255) "File name not found"
    ∷ row (negsuc 256) "File name error"
    ∷ row (negsuc 257) "Media protected"
    ∷ row (negsuc 259) "Expression error"
    ∷ row (negsuc 260) "Math error in expression"
    ∷ row (negsuc 269) "Macro error"
    ∷ row (negsuc 270) "Macro syntax error"
    ∷ row (negsuc 271) "Macro execution error"
    ∷ row (negsuc 272) "Illegal macro label"
    ∷ row (negsuc 273) "Macro parameter error"
    ∷ row (negsuc 274) "Macro definition too long"
    ∷ row (negsuc 275) "Macro recursion error"
    ∷ row (negsuc 276) "Macro redefinition not allowed"
    ∷ row (negsuc 277) "Macro header not found"
    ∷ row (negsuc 279) "Program error"
    ∷ row (negsuc 280) "Cannot create program"
    ∷ row (negsuc 281) "Illegal program name"
    ∷ row (negsuc 282) "Illegal variable name"
    ∷ row (negsuc 283) "Program currently running"
    ∷ row (negsuc 284) "Program syntax error"
    ∷ row (negsuc 285) "Program runtime error"
    ∷ row (negsuc 289) "Memory use error"
    ∷ row (negsuc 290) "Out of memory"
    ∷ row (negsuc 291) "Referenced name does not exist"
    ∷ row (negsuc 292) "Referenced name already exists"
    ∷ row (negsuc 293) "Incompatible type"
    ∷ row (negsuc 299) "Device specific error"
    ∷ row (negsuc 309) "System error"
    ∷ row (negsuc 310) "Memory error"
    ∷ row (negsuc 311) "PUD memory lost"
    ∷ row (negsuc 312) "Calibration memory lost"
    ∷ row (negsuc 313) "Save/recall memory lost"
    ∷ row (negsuc 314) "Configuration memory lost"
    ∷ row (negsuc 319) "Storage fault"
    ∷ row (negsuc 320) "Out of memory"
    ∷ row (negsuc 329) "Self-test failed"
    ∷ row (negsuc 339) "Calibration failed"
    ∷ row (negsuc 349) "Queue overflow"
    ∷ row (negsuc 359) "Communication error"
    ∷ row (negsuc 360) "Parity error in program message"
    ∷ row (negsuc 361) "Framing error in program message"
    ∷ row (negsuc 362) "Input buffer overrun"
    ∷ row (negsuc 364) "Time out error"
    ∷ row (negsuc 399) "Query error"
    ∷ row (negsuc 409) "Query INTERRUPTED"
    ∷ row (negsuc 419) "Query UNTERMINATED"
    ∷ row (negsuc 429) "Query DEADLOCKED"
    ∷ row (negsuc 439) "Query UNTERMINATED after indefinite response"
    ∷ row (negsuc 499) "Power on"
    ∷ row (negsuc 599) "User request"
    ∷ row (negsuc 699) "Request control"
    ∷ row (negsuc 799) "Operation complete"
    ∷ []
