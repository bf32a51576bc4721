-- ===== src/Report/Tests.antt =====
-- Every part is one byte.
use polkadot.Prelude.{ℕ, ◌≡◌, refl, Option, none, some, List, [], ◌∷◌, ◌++◌}
use polkadot.Report.{
  Slicable, prepare, Message, encode, encode_action, encode_message, decode_message,
  bft_double_commit, MisbehaviorReport, encode_report, decode_report,
}
use polkadot.Report.RoundTrip.{decode_message-encode_message, decode_report-encode_report}

abbrev take_byte : List ℕ → Option (ℕ × List ℕ)
take_byte [] = none
take_byte (x ∷ xs) = some (x, xs)

instance abbrev one_byte : Slicable ℕ
one_byte = record { encoded = λ n. n ∷ []; decoded = take_byte; decoded-encoded = λ n rest. refl }

abbrev vote : Message ℕ ℕ ℕ
vote = record { parent = 200; action = prepare 6 77 }

vote_bytes : encode_message vote ≡ 200 ∷ 3 ∷ 6 ∷ 77 ∷ []
unfolding encode_message encode_action encode
vote_bytes = refl

decode_message-encode_message_example :
    decode_message {R = ℕ} {B = ℕ} {H = ℕ} (encode_message vote ++ (5 ∷ [])) ≡ some (vote, 5 ∷ [])
decode_message-encode_message_example = decode_message-encode_message vote (5 ∷ [])

abbrev report : MisbehaviorReport ℕ ℕ ℕ ℕ ℕ
report = record {
  parent_hash = 200;
  parent_number = 12;
  target = 3;
  misbehavior = bft_double_commit 6 (77, 1) (78, 2);
}

decode_report-encode_report_example :
    decode_report (encode_report report ++ (5 ∷ [])) ≡ some (report, 5 ∷ [])
decode_report-encode_report_example = decode_report-encode_report report (5 ∷ [])
