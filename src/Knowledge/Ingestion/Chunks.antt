-- ===== src/Knowledge/Ingestion/Chunks.antt =====
-- `chunk_text` of src/atlas/knowledge/ingestion.py.
pub mod Rejoin
use Prim.Native.String as S
use text.Mathlib.TextLemmas.{nil-append, cons-append, append-nil}
use atlas_alpha.Prelude.{
  ℕ, zero, suc, ◌+◌, ◌-◌, ◌≤◌, ◌<◌, ltb, leb, ◌≡◌, refl, sym, ap, ◌∙◌, subst, Bool, true, false,
  String, List, [], ◌∷◌, ◌==◌, append, strip, arith, All, Bool-cases, inl, inr, if◌then◌else◌,
}
use atlas_alpha.Prelude.Result.{Result, ok, err, raise}

-- `len(s)`, `s[:n]` and `s[n:]`
unfoldable pub text_length : String → ℕ
text_length String.[] = 0
text_length (String.◌∷◌ c s) = suc (text_length s)

unfoldable pub text_take : ℕ → String → String
text_take zero s = ""
text_take (suc n) String.[] = ""
text_take (suc n) (String.◌∷◌ c s) = String.◌∷◌ c (text_take n s)

unfoldable pub text_drop : ℕ → String → String
text_drop zero s = s
text_drop (suc n) String.[] = ""
text_drop (suc n) (String.◌∷◌ c s) = text_drop n s

-- The loop of `chunk_text`, over the text from `start` on; `size` is the window and `advance` the
-- step. Each turn drops at least one character, so that the length of the text is fuel enough.
windows : ℕ → ℕ → ℕ → String → List String
windows zero size advance rest = []
windows (suc fuel) size advance rest =
    let later = windows fuel size advance (text_drop advance rest) in
    if leb (text_length rest) size then text_take size rest ∷ [] else text_take size rest ∷ later

abbrev chunks_of : ℕ → ℕ → String → List String
unfolding windows
chunks_of chunk_size overlap normalized =
    if normalized == ""
    then []
    else if leb (text_length normalized) chunk_size
    then normalized ∷ []
    else windows (text_length normalized) chunk_size (chunk_size - overlap) normalized

unfoldable pub chunk_text : String → ℕ → ℕ → Result (List String)
unfolding windows
chunk_text text chunk_size overlap =
    if leb chunk_size 0
    then raise "ValueError" "chunk_size must be positive"
    else if leb chunk_size overlap
    then raise "ValueError" "overlap must be in [0, chunk_size)"
    else ok (chunks_of chunk_size overlap (strip text))
