-- ===== src/Yenc/RoundTrip/Lost.antt =====
-- `decodeData` on the body and the trailer of data whose last byte is escaped: the trailer is read
-- as data.
use usebin.Base.{
  ℕ, suc, ◌+◌, ◌<◌, ◌≡◌, refl, sym, ap, ◌∙◌, inl, inr, true, false, Option, none, some, [], ◌∷◌,
  ◌++◌, arith, Bytes, Str, codes, All, All-append, All-map_imp, append-nil, length, append_assoc,
}
use mathlib.Core.Path.{subst}
use usebin.Js.Number.{Number}
use usebin.Yenc.{
  YFile, YencError, State, at_data, at_escape, at_begin, throw, match_crlf, match_sp_crlf, yend,
}
use usebin.Yenc.Libraries.{Libraries}
use usebin.Yenc.Reader.Cuts.{Misses}
use usebin.Yenc.Data.{write_plain, data_loop}
use usebin.Js.Print.RoundTrip.{IsDigit}
use usebin.Yenc.RoundTrip.Steps.{at_text, data_loop-token, data_loop-break}
use usebin.Yenc.RoundTrip.Tokens.{rounds, Reads}
use usebin.Yenc.RoundTrip.Body.{AtLast, EndsWith, body-reads}
use usebin.Yenc.RoundTrip.Files.{trailer, rounds-add}
use usebin.Yenc.Encode.Body.{body_text}
use usebin.Yenc.Trailer.{real_crc}
use usebin.Yenc.RoundTrip.Fields.{digits-Misses, decimal-IsDigit}
use usebin.Yenc.RoundTrip.Headers.{decimal}
use usebin.Yenc.RoundTrip.Trailers.{hex_sum, hex_sum-IsDigit, end_arguments, HasSumKey}
use usebin.Yenc.RoundTrip.Throws.{Throws-escaped, Throws-line}

digits-one_line : (s : Str) → All (IsDigit 16) s → Misses match_crlf s
digits-one_line s h = All-map_imp (λ c m. no_break c m) s (digits-Misses s h)
  where
    no_break : (c : ℕ) → match_sp_crlf c ≡ false → match_crlf c ≡ false
    no_break c m = ground arith

Misses-append :
    (a b : Bytes) → Misses match_crlf a → Misses match_crlf b → Misses match_crlf (a ++ b)
Misses-append = All-append (λ c. match_crlf c ≡ false)

-- the trailer line without its first two characters and its line break
abbrev end_line : ℕ → ℕ → Option Str → Bytes
end_line size crc none = codes "end size=" ++ decimal size
end_line size crc (some key) =
    codes "end size=" ++ (decimal size ++ (0x20 ∷ (key ++ (0x3d ∷ hex_sum crc))))

end_line-Misses :
    (size crc : ℕ) (key : Option Str) → HasSumKey key → Misses match_crlf (end_line size crc key)
end_line-Misses size crc none k =
    Misses-append (codes "end size=") (decimal size) (ground arith)
      (digits-one_line _ (decimal-IsDigit size))
end_line-Misses size crc (some key) k = Misses-append (codes "end size=") _ (ground arith) (
    Misses-append (decimal size) _ (digits-one_line _ (decimal-IsDigit size)) (
      refl,
      Misses-append key _ (key-Misses key k) (refl, digits-one_line _ (hex_sum-IsDigit crc)),
    ))
  where
    key-Misses : (s : Str) → HasSumKey (some s) → Misses match_crlf s
    key-Misses s (inl e) = rw e (ground arith)
    key-Misses s (inr e) = rw e (ground arith)

end_arguments-end_line :
    (size crc : ℕ) (key : Option Str)
    → yend ++ end_arguments size crc key ≡ 0x3d ∷ 0x79 ∷ (end_line size crc key ++ 10 ∷ [])
end_arguments-end_line size crc none = simp append_assoc
end_arguments-end_line size crc (some key) = simp append_assoc

module _ (lib : Libraries) (file : YFile) where
  open lib use {Writer}

  -- behind an escaped last byte, the line break is skipped and the trailer is read as data
  read_last :
      (t : Bytes) (st : State) (p : Bytes) (w : Writer)
      → AtLast true st p
      → Reads lib none file (at_text file at_escape t) st (p ++ 10 ∷ 0x3d ∷ t) w p []
  unfolding write_plain
  read_last t st p w (e, f) =
      rw (e, f)
        (
          0,
          w,
          λ fuel n.
              data_loop-break lib none fuel file n at_data 0x3d t w refl
              ∙ data_loop-token lib none fuel file n at_data [] 0x3d t w tt refl refl (inr refl),
          sym (append-nil (lib.finish w)),
        )

rounds-rounds : (a b n : ℕ) → rounds a (rounds b n) ≡ rounds (a + b) n
rounds-rounds a b n = omega (arith, rounds-add a (rounds b n), rounds-add b n, rounds-add (a + b) n)

-- `decodeData` throws on the text.
abbrev pub LostOn : (lib : Libraries) → YFile → Bytes → Type 0
LostOn lib file text =
    (k : ℕ) × (e : YencError) × ((fuel n : ℕ)
      → data_loop lib none (rounds k (suc n)) fuel lib.new_writer (at_text file at_begin text)
        ≡ throw e)

module _ (lib : Libraries) (file : YFile) (line : Number) (x : ℕ) (xs : Bytes)
    (key : Option Str) where
  Reads-lost :
      (t : Bytes) (w : lib.Writer)
      → All (λ c. c < 256) (x ∷ xs)
      → EndsWith true (x ∷ xs)
      → Reads lib none file
          (at_text file at_escape t)
          at_begin
          (body_text line (x ∷ xs) 0 ++ 0x3d ∷ t)
          w
          []
          (x ∷ xs)
  Reads-lost t w b p =
      body-reads lib none file (0x3d ∷ t) (at_text file at_escape t) true
        (λ st q w' i m a. read_last lib file t st q w' a) line (x ∷ xs) 0 at_begin [] w (inl refl)
        tt b p

  -- On the body and the trailer of data whose last byte is escaped, the loop throws.
  pub data_loop-lost :
      All (λ c. c < 256) (x ∷ xs)
      → EndsWith true (x ∷ xs)
      → HasSumKey key
      → LostOn lib file (body_text line (x ∷ xs) 0 ++ trailer lib (x ∷ xs) key)
  data_loop-lost b p h =
      let size = length (x ∷ xs) in
      let crc = real_crc lib none (x ∷ xs) in
      let l = end_line size crc key in
      let t = 0x79 ∷ (l ++ 10 ∷ []) in
      let (k2, err, lost) =
        Throws-escaped lib none file 0x79 (l ++ 10 ∷ []) refl
          (Throws-line lib none file l [] tt (end_line-Misses size crc key h)) in
      let (k, w, runs, f) = Reads-lost t lib.new_writer b p in
      subst (λ s. LostOn lib file (body_text line (x ∷ xs) 0 ++ s))
        (sym (end_arguments-end_line size crc key))
        (
          suc k + k2,
          err,
          λ fuel n.
              ap
                (λ r.
                  data_loop lib none r fuel lib.new_writer
                    (at_text file at_begin (body_text line (x ∷ xs) 0 ++ 0x3d ∷ t)))
                (sym (rounds-rounds (suc k) k2 (suc n)))
              ∙ runs fuel (rounds k2 (suc n))
              ∙ lost fuel n w,
        )
