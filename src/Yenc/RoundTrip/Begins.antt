-- ===== src/Yenc/RoundTrip/Begins.antt =====
-- The `=ybegin` line of `writeHeader`.
use usebin.Base.{ℕ, suc, ◌≡◌, refl, ap, ◌∙◌, some, ◌++◌, Bytes, Str, codes}
use usebin.Js.Number.{nat}
use usebin.Yenc.{YFile, no_fields, at_start, at_begin, ok, ybegin}
use usebin.Yenc.Reader.{arguments}
use usebin.Yenc.Reader.Bind.{then_do}
use usebin.Yenc.Reader.Cuts.{advance_lem}
use usebin.Yenc.Header.{begin_argument, is_name, check_begin, begin_line}
use usebin.Yenc.RoundTrip.Steps.{at_text}
use usebin.Yenc.RoundTrip.Fields.{argument, plain_key-IsKey}
use usebin.Yenc.RoundTrip.Headers.{
  decimal, set_field-part, set_field-total, begin_number, IsName, common_arguments, with_common,
  begin_common,
}

-- five arguments and more
abbrev pub five_and : ℕ → ℕ
five_and n = suc (suc (suc (suc (suc n))))

-- a file of which the part number and the total are set
abbrev pub numbered : ℕ → ℕ → YFile
numbered part total = record no_fields { part = some (nat part); total = some (nat total) }

module _ (line size : ℕ) (name : Str) (part total : ℕ) where
  -- the arguments of the `=ybegin` line of a part
  abbrev pub multi_arguments : Bytes → Bytes
  multi_arguments rest =
      argument (codes "part") (decimal part) 0x20
        (argument (codes "total") (decimal total) 0x20 (common_arguments line size name rest))

module _ (n line size : ℕ) (name : Str) (rest : Bytes) (h : IsName name) where
  -- the `=ybegin` line of a file that is not split
  pub begin_line-single :
      begin_line
        (five_and n)
        (at_text no_fields at_start (ybegin ++ common_arguments line size name rest))
      ≡ ok (tt, at_text (with_common line size name no_fields) at_begin rest)
  unfolding begin_line check_begin
  begin_line-single =
      ap (then_do _) (
        advance_lem ybegin _
          (at_text no_fields at_start (ybegin ++ common_arguments line size name rest)) refl)
      ∙ ap (then_do _) (begin_common (suc (suc n)) line size name rest h no_fields)

  module _ (part total : ℕ) where
    begin_multi :
        arguments
          (five_and n)
          (some is_name)
          begin_argument
          tt
          (at_text no_fields at_start (multi_arguments line size name part total rest))
        ≡ ok (tt, at_text (with_common line size name (numbered part total)) at_start rest)
    begin_multi =
        begin_number (codes "part") (suc (suc (suc (suc n)))) part no_fields _
          (plain_key-IsKey _ _ refl) refl
        ∙ rw (set_field-part part no_fields) (
            begin_number (codes "total") (suc (suc (suc n))) total
              (record no_fields { part = some (nat part) }) _ (plain_key-IsKey _ _ refl) refl
            ∙ rw (set_field-total total (record no_fields { part = some (nat part) }))
                (begin_common n line size name rest h (numbered part total)))

    pub begin_line-multi :
        begin_line
          (five_and n)
          (at_text no_fields at_start (ybegin ++ (multi_arguments line size name part total rest)))
        ≡ ok (tt, at_text (with_common line size name (numbered part total)) at_begin rest)
    unfolding begin_line check_begin
    begin_line-multi =
        ap (then_do _) (
          advance_lem ybegin (multi_arguments line size name part total rest)
            (at_text no_fields at_start
              (ybegin ++ (multi_arguments line size name part total rest)))
            refl)
        ∙ ap (then_do _) begin_multi
