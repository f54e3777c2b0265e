-- ===== src/Frame/Tests.antt =====
-- The header of a concrete record.
use wgtcp.Base.{◌≡◌, ◌↔◌, inl, refl, true, [], ◌++◌, arith}
use wgtcp.Samples.{whole, whole-IsSendable}
use wgtcp.Frame.{
  build_header, header_checksum, check_candidate, check_potential_header_validity, frame_bytes,
}
use wgtcp.Frame.Header.{IsCandidate, check_candidate_iff, validate-build_header}
use wgtcp.Frame.Build.{check-frame_bytes}
use wgtcp.Frame.Detect.{FitsFields, one_word_error}

check_candidate_iff_example :
    (check_candidate (build_header whole) ≡ true) ↔ IsCandidate (build_header whole)
unfolding build_header
check_candidate_iff_example = check_candidate_iff (build_header whole) (omega arith)

check-frame_bytes_example : check_potential_header_validity (frame_bytes whole ++ []) 40 ≡ true
check-frame_bytes_example = check-frame_bytes whole [] 40 whole-IsSendable (omega arith)

one_word_error_example : build_header whole ≡ build_header whole
unfolding build_header header_checksum
one_word_error_example =
    one_word_error (build_header whole) (build_header whole) whole_fits whole_fits
      (inl (refl, refl, refl)) (validate-build_header whole) (validate-build_header whole)
  where
    whole_fits : FitsFields (build_header whole)
    whole_fits = record {
      length_fits = omega arith;
      type_fits = omega arith;
      flags_fits = omega arith;
      checksum_fits = omega arith;
    }
