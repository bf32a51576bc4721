-- ===== src/Report/MisbehaviorCheck/Tests.antt =====
-- Every part is one byte, and a signature of a text is any byte and then the text.
use polkadot.Prelude.{
  ℕ, ◌≡◌, ◌↔◌, ◌∙◌, sym, refl, Bool, true, false, ◌&&◌, Option, none, some, List, [], ◌∷◌, arith,
  Eq, ◌==◌, ==_iff, nat_eq,
}
use polkadot.Report.{
  Slicable, bft_double_prepare, MisbehaviorKind, encode, encode_action, encode_message,
}
use polkadot.Report.MisbehaviorCheck.{prepare_message, check_message_sig, evaluate_misbehavior}
use polkadot.Report.MisbehaviorCheck.Verdict.{IsBinding, IsReported, evaluate_misbehavior_exact}

abbrev take_byte : List ℕ → Option (ℕ × List ℕ)
take_byte [] = none
take_byte (x ∷ xs) = some (x, xs)

instance abbrev byte : Slicable ℕ
byte = record { encoded = λ n. n ∷ []; decoded = take_byte; decoded-encoded = λ n rest. refl }

abbrev text_eqb : List ℕ → List ℕ → Bool
text_eqb [] [] = true
text_eqb (x ∷ xs) (y ∷ ys) = x == y && text_eqb xs ys
text_eqb _ _ = false

text_eqb_iff : (xs ys : List ℕ) → (text_eqb xs ys ≡ true) ↔ (xs ≡ ys)
text_eqb_iff [] [] = ground arith
text_eqb_iff [] (y ∷ ys) = ground arith
text_eqb_iff (x ∷ xs) [] = ground arith
text_eqb_iff (x ∷ xs) (y ∷ ys) = ground (arith, text_eqb_iff xs ys, ==_iff x y)

instance abbrev text_eq : Eq (List ℕ)
text_eq = record { eqb = text_eqb; eqb_iff = text_eqb_iff }

-- the first byte of a signature is free
abbrev verify : List ℕ → List ℕ → ℕ → Bool
verify [] text a = false
verify (_ ∷ signed) text a = text_eqb signed text

verify-IsBinding : IsBinding verify
verify-IsBinding [] x y a h k = absurd (ground arith)
verify-IsBinding (_ ∷ s) x y a h k = sym ((text_eqb_iff s x).0 h) ∙ (text_eqb_iff s y).0 k

abbrev report : MisbehaviorKind ℕ ℕ (List ℕ)
report = bft_double_prepare 6 (77, 1 ∷ 200 ∷ 3 ∷ 6 ∷ 77 ∷ []) (78, 1 ∷ 200 ∷ 3 ∷ 6 ∷ 78 ∷ [])

-- one vote, signed twice
abbrev signed_twice : MisbehaviorKind ℕ ℕ (List ℕ)
signed_twice = bft_double_prepare 6 (77, 1 ∷ 200 ∷ 3 ∷ 6 ∷ 77 ∷ []) (77, 2 ∷ 200 ∷ 3 ∷ 6 ∷ 77 ∷ [])

accepted : evaluate_misbehavior ℕ verify 1 200 report ≡ true
unfolding evaluate_misbehavior check_message_sig prepare_message encode_message encode_action encode
accepted = refl

one_vote_accepted : evaluate_misbehavior ℕ verify 1 200 signed_twice ≡ true
unfolding evaluate_misbehavior check_message_sig prepare_message encode_message encode_action encode
one_vote_accepted = refl

evaluate_misbehavior_exact_example :
    (evaluate_misbehavior ℕ verify 1 200 report ≡ true) ↔ IsReported ℕ verify 1 200 report
evaluate_misbehavior_exact_example =
    evaluate_misbehavior_exact ℕ verify verify-IsBinding 1 200 report
