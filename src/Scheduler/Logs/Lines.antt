-- ===== src/Scheduler/Logs/Lines.antt =====
-- The cached and chunked count of `_line_at_offset` against a plain count from the file's start.
use Prim.Native.Nat.{min}
use native.Mathlib.Nat.{zero-add, suc-add}
use comfy_ui_account_manager.Base.{
  ℕ, zero, suc, String, ◌+◌, ◌-◌, ◌≤◌, ◌<◌, List, [], ◌∷◌, Option, none, some, ◌≡◌, refl, sym, ap,
  ◌∙◌, arith, str_eq, str_eq_iff, ltb, ◌==◌, ◌||◌, Bool-cases, Option-cases, inl, inr, length, take,
  drop,
}
use comfy_ui_account_manager.Base.Dict.{lookup, insert, lookup-insert}
use comfy_ui_account_manager.Scheduler.Logs.{
  Disk, Cache, chunk_size, newlines, read_on, start_at, line_at_offset,
}

module _ {ℓ} {A : Type ℓ} where
  length-take : (n : ℕ) (xs : List A) → length (take n xs) ≡ min n (length xs)
  length-take zero xs = omega arith
  length-take (suc n) [] = omega arith
  length-take (suc n) (x ∷ xs) = omega (arith, length-take n xs)

  length-drop : (n : ℕ) (xs : List A) → length (drop n xs) ≡ length xs - n
  length-drop zero xs = omega arith
  length-drop (suc n) [] = omega arith
  length-drop (suc n) (x ∷ xs) = omega (arith, length-drop n xs)

pair_eq : {a b c d : ℕ} → a ≡ c → b ≡ d → ◌≡◌ {A = ℕ × ℕ} (a, b) (c, d)
pair_eq p q = λ i. (p i, q i)

newlines-nil : (xs : List ℕ) → length xs ≡ 0 → newlines xs ≡ 0
unfolding newlines
newlines-nil [] h = refl
newlines-nil (x ∷ xs) h = absurd (omega arith)

-- The newlines of two neighbouring pieces.
newlines-take_zero : (xs : List ℕ) → newlines (take 0 xs) ≡ 0
unfolding newlines
newlines-take_zero xs = refl

newlines-take_nil : (n : ℕ) → newlines (take n []) ≡ 0
unfolding newlines
newlines-take_nil zero = refl
newlines-take_nil (suc n) = refl

newlines-take_add :
    (a b : ℕ) (xs : List ℕ)
    → newlines (take a xs) + newlines (take b (drop a xs)) ≡ newlines (take (a + b) xs)
unfolding newlines
newlines-take_add zero b xs = rw (zero-add b) (omega arith)
newlines-take_add (suc a) b [] = rw suc-add (omega (arith, newlines-take_nil b))
newlines-take_add (suc a) b (x ∷ xs) = rw suc-add (omega (arith, newlines-take_add a b xs))

take_all : (bytes : List ℕ) (n : ℕ) → length bytes ≤ n → take n bytes ≡ bytes
take_all [] zero h = refl
take_all [] (suc n) h = refl
take_all (c ∷ bytes) zero h = absurd (omega arith)
take_all (c ∷ bytes) (suc n) h = let rest = take_all bytes n (omega arith) in ap (◌∷◌ c) rest

-- One chunk, and then the rest behind it: the same newlines as in one piece.
newlines-chunk :
    (a remaining : ℕ) (rest : List ℕ)
    → a ≤ remaining
    → let k = length (take a rest) in
      newlines (take a rest) + newlines (take (remaining - k) (drop k rest))
      ≡ newlines (take remaining rest)
newlines-chunk a remaining rest h = elim (Bool-cases (ltb (length rest) a)) [
  | inl short ↦
      let fits : length rest ≤ a = ground arith in
      omega (
        arith,
        ap newlines (take_all rest a fits),
        ap newlines (take_all rest remaining (omega arith)),
        newlines-nil (take (remaining - length (take a rest)) (drop (length (take a rest)) rest)) (
            omega (
              arith,
              length-take (remaining - length (take a rest)) (drop (length (take a rest)) rest),
              length-drop (length (take a rest)) rest,
              length-take a rest,
            )),
      )
  | inr long ↦
      let whole : length (take a rest) ≡ a = ground (arith, length-take a rest) in
      let join : a + (remaining - a) ≡ remaining = omega arith in
      rw whole (
        omega
          (arith, newlines-take_add a (remaining - a) rest, ap (λ n. newlines (take n rest)) join))
]

-- The loop reads to `remaining` bytes or to the end of the file, and counts the newlines there.
read_on_lem :
    (fuel : ℕ) (rest : List ℕ) (offset newline_count remaining : ℕ)
    → remaining ≤ fuel
    → read_on fuel rest offset newline_count remaining
      ≡ (offset + min remaining (length rest), newline_count + newlines (take remaining rest))
unfolding read_on
read_on_lem zero rest offset newline_count zero h = ground (arith, newlines-take_zero rest)
read_on_lem zero rest offset newline_count (suc remaining) h = absurd (omega arith)
read_on_lem (suc fuel) rest offset newline_count remaining h =
    elim (Bool-cases (remaining == 0 || length (take (min chunk_size remaining) rest) == 0)) [
      | inl done ↦
          let nothing : min remaining (length rest) ≡ 0 =
            ground (arith, length-take (min chunk_size remaining) rest) in
          rw done (
            pair_eq (omega arith) (
              omega (
                arith,
                newlines-nil (take remaining rest) (omega (arith, length-take remaining rest)),
              )))
      | inr more ↦
          let k = length (take (min chunk_size remaining) rest) in
          let pos : 0 < k = ground arith in
          rw
            (
              more,
              read_on_lem fuel (drop k rest) (offset + k)
                  (newline_count + newlines (take (min chunk_size remaining) rest)) (remaining - k)
                  (omega arith),
            )
            (pair_eq
              (omega (arith, length-take (min chunk_size remaining) rest, length-drop k rest))
              (omega
                (arith, newlines-chunk (min chunk_size remaining) remaining rest (omega arith))))
    ]

-- Every cached pair lies in its file, and is the number of newlines before the offset.
pub record IsSound (disk : Disk) (cache : Cache) : Type 0 where
  pub within :
      (path : String) (bytes : List ℕ) (offset newline_count : ℕ)
      → disk.bytes path ≡ some bytes
      → lookup path cache ≡ some (offset, newline_count)
      → (offset ≤ length bytes) × (newline_count ≡ newlines (take offset bytes))

-- What `start_at` gives is as good as an entry, and not past the wanted offset.
start_at_lem :
    (disk : Disk) (cache : Cache) (path : String) (bytes : List ℕ) (offset : ℕ)
    → IsSound disk cache
    → disk.bytes path ≡ some bytes
    → let from = start_at cache path offset in
      (from.0 ≤ offset) × (from.0 ≤ length bytes) × (from.1 ≡ newlines (take from.0 bytes))
unfolding start_at
start_at_lem disk cache path bytes offset sound file = elim (Option-cases (lookup path cache)) [
  | inl e ↦ rw (e, start_at) (ground (arith, newlines-take_zero bytes))
  | inr ((o, n), e) ↦
      rw (e, start_at)
        (ground (arith, newlines-take_zero bytes, sound.within path bytes o n file e))
]

-- The pair that the loop ends with.
found_lem :
    (bytes : List ℕ) (offset o n : ℕ)
    → o ≤ offset
    → o ≤ length bytes
    → n ≡ newlines (take o bytes)
    → read_on (offset - o) (drop o bytes) o n (offset - o)
      ≡ (min offset (length bytes), newlines (take offset bytes))
found_lem bytes offset o n h k e =
    let join : o + (offset - o) ≡ offset = omega arith in
    rw (read_on_lem (offset - o) (drop o bytes) o n (offset - o) (omega arith)) (
      pair_eq (omega (arith, length-drop o bytes)) (
        omega
          (arith, newlines-take_add o (offset - o) bytes, ap (λ m. newlines (take m bytes)) join)))

newlines-take-min :
    (m : ℕ) (xs : List ℕ) → newlines (take (min m (length xs)) xs) ≡ newlines (take m xs)
newlines-take-min m xs = elim (Bool-cases (ltb m (length xs))) [
  | inl inside ↦ let e : min m (length xs) ≡ m = ground arith in ap (λ k. newlines (take k xs)) e
  | inr outside ↦
      let h : length xs ≤ m = ground arith in
      let e : min m (length xs) ≡ length xs = omega arith in
      rw (e, take_all xs (length xs) (omega arith), take_all xs m h)
]

abbrev fst_of : Option (ℕ × ℕ) → ℕ
fst_of none = 0
fst_of (some p) = p.0

abbrev snd_of : Option (ℕ × ℕ) → ℕ
snd_of none = 0
snd_of (some p) = p.1

-- A cache stays sound under a new entry that is.
insert-IsSound :
    (disk : Disk) (cache : Cache) (path : String) (bytes : List ℕ) (offset : ℕ)
    → IsSound disk cache
    → disk.bytes path ≡ some bytes
    → IsSound disk (insert path (min offset (length bytes), newlines (take offset bytes)) cache)
insert-IsSound disk cache path bytes offset sound file = record {
  within = λ other content o n here found. elim (Bool-cases (str_eq path other)) [
    | inl t ↦
        let same : path ≡ other = (str_eq_iff path other).0 t in
        let content_same : bytes ≡ content = cc (sym file ∙ ap disk.bytes same ∙ here) in
        let entry : (◌≡◌ {A = Option (ℕ × ℕ)}
            (some (min offset (length bytes), newlines (take offset bytes))) (some (o, n))) =
          rw (lookup-insert, t) at found in
        rw (← content_same) (
          omega (
            arith,
            ap fst_of entry,
            ap snd_of entry,
            newlines-take-min offset bytes,
            ap (λ m. newlines (take m bytes)) (ap fst_of entry),
          ))
    | inr f ↦ sound.within other content o n here (rw (lookup-insert, f) at found)
  ];
}

-- With a sound cache, `_line_at_offset` answers 1 plus the number of newlines among the first
-- `offset` bytes of the file, and leaves a sound cache.
pub line_at_offset_lem :
    (disk : Disk) (cache : Cache) (path : String) (bytes : List ℕ) (offset : ℕ)
    → IsSound disk cache
    → disk.bytes path ≡ some bytes
    → ((line_at_offset disk cache path offset).0 ≡ newlines (take offset bytes) + 1)
      × IsSound disk (line_at_offset disk cache path offset).1
unfolding line_at_offset
line_at_offset_lem disk cache path bytes offset sound file =
    let from = start_at cache path offset in
    let ok = start_at_lem disk cache path bytes offset sound file in
    let found = found_lem bytes offset from.0 from.1 ok.0 ok.1 ok.2 in
    rw (file, line_at_offset)
      (rw found (refl, insert-IsSound disk cache path bytes offset sound file))
