-- ===== src/Yenc/RoundTrip/Files.antt =====
-- `decodeData` on the lines and the trailer of `encode`.
use usebin.Base.{
  ℕ, zero, suc, ◌+◌, ◌<◌, ◌≡◌, refl, ap, ◌∙◌, Option, none, some, [], ◌++◌, if◌then◌else◌, arith,
  Bytes, Str, All, length,
}
use mathlib.Core.Path.{subst}
use usebin.Bytes.Prefix.{has_prefix-starts_with, starts_with-append}
use usebin.Js.Number.{Number, nat}
use usebin.Yenc.{YFile, at_begin, ok, yend}
use usebin.Yenc.Libraries.{Libraries}
use usebin.Yenc.Reader.{pure}
use usebin.Yenc.Reader.Bind.{then_do}
use usebin.Yenc.Trailer.{content_of, size_from_header, real_crc}
use usebin.Yenc.Data.{go_on, return, plain_round, end_round, begin_round, state_round, data_loop}
use usebin.Yenc.Encode.Body.{body_text}
use usebin.Yenc.RoundTrip.Steps.{at_text, data_loop_lem}
use usebin.Yenc.RoundTrip.Tokens.{rounds}
use usebin.Yenc.RoundTrip.Begins.{five_and}
use usebin.Yenc.RoundTrip.Body.{EndsPlain, data_loop-body_text}
use usebin.Yenc.RoundTrip.Trailers.{end_arguments, HasSumKey, consume_end_lem}

module _ (lib : Libraries) where
  open lib use {Writer, new_writer, finish, finish-new_writer}

  -- the text behind the header lines: body and trailer
  abbrev pub trailer : Bytes → Option Str → Bytes
  trailer xs key = yend ++ end_arguments (length xs) (real_crc lib none xs) key

  module _ (n m : ℕ) (file : YFile) (w : Writer) (key : Option Str) where
    abbrev done : YFile
    done = record file { content = some (finish w) }

    end_round_lem :
        HasSumKey key
        → size_from_header done ≡ some (nat (length (finish w)))
        → end_round lib none (suc (suc n)) w (at_text file at_begin (trailer (finish w) key))
          ≡ ok (return, at_text done at_begin [])
    unfolding end_round content_of
    end_round_lem k e =
        ap (then_do (λ _. pure return)) (consume_end_lem lib n done at_begin key k e)

    data_loop-trailer :
        HasSumKey key
        → size_from_header done ≡ some (nat (length (finish w)))
        → data_loop lib none
            (suc m)
            (suc (suc n))
            w
            (at_text file at_begin (trailer (finish w) key))
          ≡ ok (tt, at_text done at_begin [])
    unfolding state_round begin_round
    data_loop-trailer k e =
        data_loop_lem lib none (suc (suc n)) file m at_begin 0x3d _ w refl
        ∙ ap
            (λ b. then_do (go_on (data_loop lib none m (suc (suc n)))) (
              (if b then end_round lib none (suc (suc n)) w else plain_round lib w)
                (at_text file at_begin (trailer (finish w) key))))
            (has_prefix-starts_with (trailer (finish w) key) yend
              ∙ starts_with-append yend
                  (end_arguments (length (finish w)) (real_crc lib none (finish w)) key))
        ∙ ap (then_do (go_on (data_loop lib none m (suc (suc n))))) (end_round_lem k e)

  module _ (file : YFile) (line : Number) (xs : Bytes) (key : Option Str) where
    abbrev pub with_content : Bytes → YFile
    with_content ys = record file { content = some ys }

    -- The loop of `decodeData` reads the body and the trailer, and leaves the data in the file.
    pub data_loop-file :
        All (λ x. x < 256) xs
        → EndsPlain xs
        → HasSumKey key
        → size_from_header (with_content xs) ≡ some (nat (length xs))
        → (k : ℕ) × ((n m : ℕ)
            → data_loop lib none
                (rounds k (suc m))
                (suc (suc n))
                new_writer
                (at_text file at_begin (body_text line xs 0 ++ trailer xs key))
              ≡ ok (tt, at_text (with_content xs) at_begin []))
    data_loop-file b p h e =
        let (k, w, runs, f) =
          data_loop-body_text lib none file (trailer xs key) line xs new_writer b p in
        (
          k,
          λ n m. runs (suc (suc n)) (suc m) ∙ at_trailer n m w (f ∙ ap (◌++ xs) finish-new_writer),
        )
      where
        at_trailer :
            (n m : ℕ) (w : Writer)
            → finish w ≡ xs
            → data_loop lib none (suc m) (suc (suc n)) w (at_text file at_begin (trailer xs key))
              ≡ ok (tt, at_text (with_content xs) at_begin [])
        at_trailer n m w f =
            subst
              (λ ys.
                size_from_header (with_content ys) ≡ some (nat (length ys))
                → data_loop lib none (suc m) (suc (suc n)) w
                    (at_text file at_begin (trailer ys key))
                  ≡ ok (tt, at_text (with_content ys) at_begin []))
              f (data_loop-trailer n m file w key h) e

-- `suc` moved out of the rounds
pub rounds-suc : (k n : ℕ) → rounds k (suc n) ≡ suc (rounds k n)
rounds-suc zero n = refl
rounds-suc (suc k) n = ap suc (rounds-suc k n)

pub rounds-five_and : (k n : ℕ) → rounds k (five_and n) ≡ five_and (rounds k n)
rounds-five_and zero n = refl
rounds-five_and (suc k) n = ap suc (rounds-five_and k n)

pub rounds-add : (k n : ℕ) → rounds k n ≡ k + n
rounds-add zero n = omega arith
rounds-add (suc k) n = omega (arith, rounds-add k n)
