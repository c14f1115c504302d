-- ===== src/Collector/Workers/Labels.antt =====
-- The labels of the workers: what a name becomes, which states there are, and the order of names.
use braiins_pool_exporter.Base.{
  ℕ, zero, suc, String, Bool, true, false, not, ◌&&◌, [], ◌∷◌, Option, none, some, ltb, leb, eqb,
  if◌then◌else◌, length,
}
use braiins_pool_exporter.Base.Result.{Result, ok, ◌>>◌, fail_if}
use braiins_pool_exporter.Text.{Text, Map, codes, ◌==◌, trim_space, to_lower}

pub data WorkerError : Type 0 where
  -- `errWorkerLimitExceeded`
  limit_exceeded : WorkerError
  message : String → WorkerError

pub data WorkerState : Type 0 where
  ok_state low off dis unknown : WorkerState

abbrev max_worker_label_length : ℕ
max_worker_label_length = 128

-- What may follow the first byte of a UTF-8 character: how many bytes, and the range of the next.
abbrev Tail : Type 0
Tail = ℕ × ℕ × ℕ

unfoldable pub utf8_tail : ℕ → Option Tail
utf8_tail a =
    if ltb a 0x80
    then some (0, 0x80, 0xbf)
    else if leb 0xc2 a && leb a 0xdf
    then some (1, 0x80, 0xbf)
    else if eqb a 0xe0
    then some (2, 0xa0, 0xbf)
    else if eqb a 0xed
    then some (2, 0x80, 0x9f)
    else if leb 0xe1 a && leb a 0xef
    then some (2, 0x80, 0xbf)
    else if eqb a 0xf0
    then some (3, 0x90, 0xbf)
    else if leb 0xf1 a && leb a 0xf3
    then some (3, 0x80, 0xbf)
    else if eqb a 0xf4
    then some (3, 0x80, 0x8f)
    else none

unfoldable pub utf8_next : Tail → ℕ → Option Tail
unfolding utf8_tail
utf8_next (zero, _, _) a = utf8_tail a
utf8_next (suc n, from, to) a = if leb from a && leb a to then some (n, 0x80, 0xbf) else none

-- `utf8.ValidString`, behind the bytes that the tail still expects.
unfoldable pub utf8_valid : Option Tail → Text → Bool
unfolding utf8_next
utf8_valid none s = false
utf8_valid (some t) [] = eqb t.0 0
utf8_valid (some t) (a ∷ s) = utf8_valid (utf8_next t a) s

unfoldable pub valid_string : Text → Bool
unfolding utf8_valid
valid_string = utf8_valid (some (0, 0x80, 0xbf))

unfoldable pub normalize_worker_label : Text → Result String Text
unfolding trim_space ◌==◌ valid_string
normalize_worker_label name = do
  let label = trim_space name
  fail_if (label == []) "Braiins worker label is blank"
  fail_if (not (valid_string label)) "Braiins worker label is not valid UTF-8"
  fail_if (ltb max_worker_label_length (length label)) "Braiins worker label exceeds maximum length"
  ok label

unfoldable pub normalize_worker_state : (Text → Text) → Text → WorkerState
unfolding trim_space to_lower ◌==◌
normalize_worker_state fold state =
    let text = to_lower fold (trim_space state) in
    if text == codes "ok"
    then ok_state
    else if text == codes "low"
    then low
    else if text == codes "off"
    then off
    else if text == codes "dis"
    then dis
    else unknown

-- The order of `sort.Strings`: by bytes.
unfoldable pub text_le : Text → Text → Bool
text_le [] t = true
text_le (a ∷ s) [] = false
text_le (a ∷ s) (b ∷ t) = if ltb a b then true else eqb a b && text_le s t

-- The entries of a map by the order of their names.
module _ {ℓ} {V : Type ℓ} where
  unfoldable pub insert_worker : Text × V → Map V → Map V
  unfolding text_le
  insert_worker e [] = e ∷ []
  insert_worker e (d ∷ m) = if text_le e.0 d.0 then e ∷ d ∷ m else d ∷ insert_worker e m

  unfoldable pub sort_workers : Map V → Map V
  unfolding insert_worker
  sort_workers [] = []
  sort_workers (e ∷ m) = insert_worker e (sort_workers m)
