-- ===== src/Report/Tests.antt =====
-- Error reports on small inputs.
use scpi_parser.Base.{◌≡◌, ◌≤◌, refl, true, some, [], ◌∷◌, ◌++◌, length, Bytes, negsuc, text_bytes}
use scpi_parser.Fifo.Queue.{Error}
use scpi_parser.Format.{uint32_to_str_base_sign}
use scpi_parser.Param.{wrap}
use scpi_parser.Report.Limit.{result_error-description}
use scpi_parser.Report.{error_translate, result_error, translate}
use scpi_parser.Result.Output.{output, separator}
use scpi_parser.Result.Tests.{quiet}

translate_test : error_translate (negsuc 112) ≡ text_bytes "Undefined header"
unfolding error_translate translate
translate_test = refl

abbrev undefined : Error
undefined = record { error_code = negsuc 112; device_dependent_info = some (text_bytes "a\"b") }

result_error-description_example :
    (description : Bytes) × (output (result_error undefined quiet).1.events
      ≡ output quiet.events
        ++ (separator 0 ++ uint32_to_str_base_sign (wrap 32 (negsuc 112)) 33 10 true)
        ++ (b',' ∷ b'"' ∷ description ++ b'"' ∷ []))
    × (length description ≤ 255)
result_error-description_example = result_error-description undefined quiet
