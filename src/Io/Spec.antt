-- ===== src/Io/Spec.antt =====
-- What a reading or a writing function does with a given run of bytes, and the rules for building
-- such facts along the source's chains of calls.
use cu_mes.Base.{
  ℕ, ◌+◌, ◌-◌, ◌≡◌, refl, ap, subst, ◌∙◌, inl, inr, Bool, true, Option, none, some, List, [], ◌++◌,
  append_assoc, append-nil, length, leb, le→leb, Bool-cases, leb→le, length-append, take-append,
  drop-append, if◌then◌else◌, arith,
}
use cu_mes.Io.Outcome.{Outcome, ok, Reason, or_reason}
use cu_mes.Io.File.{
  InFile, OutFile, Reading, Writing, continue, ◌>>=◌, ◌>>◌, pure, fread, fwrite, ◌then_write◌,
  then_on, provided, write_nothing, with_reason, require,
}

-- Wherever the stream stands, `r` takes exactly `bytes` and returns `a`.
pub record Decodes {ℓ} {A : Type ℓ} (r : Reading A) (bytes : List ℕ) (a : A) : Type ℓ where
  pub at :
      (position : ℕ) (rest : List ℕ)
      → r (record { position = position; rest = bytes ++ rest })
        ≡ ok (a, record { position = position + length bytes; rest = rest })

-- The file after `bytes` have been written, if the device has room for them.
abbrev pub written : List ℕ → OutFile → Option OutFile
written bytes f =
    if leb (length bytes) f.room
    then some (record { data_bytes = f.data_bytes ++ bytes; room = f.room - length bytes })
    else none

-- `w` writes `bytes`, and fails exactly when the device has no room for them.
pub record Writes (w : Writing) (bytes : List ℕ) : Type 0 where
  pub at : (f : OutFile) → w f ≡ written bytes f

module _ {ℓ} {A : Type ℓ} where
  pub Decodes-pure : (a : A) → Decodes (pure a) [] a
  unfolding pure
  Decodes-pure a = record { at = λ p rest. ground arith }

module _ {ℓ κ} {A : Type ℓ} {B : Type κ} where
  pub continue-ok :
      {x : Outcome (A × InFile)} {a : A} {g : InFile} (k : A → Reading B)
      → x ≡ ok (a, g)
      → continue x k ≡ k a g
  continue-ok k e = rw e

  pub Decodes-bind :
      {r : Reading A} {xs ys : List ℕ} {a : A} {b : B} (k : A → Reading B)
      → Decodes r xs a
      → Decodes (k a) ys b
      → Decodes (r >>= k) (xs ++ ys) b
  unfolding ◌>>=◌
  Decodes-bind {xs} {ys} {b} k d e = record {
    at = λ p rest.
        rw (append_assoc xs ys rest, length-append xs ys)
          (continue-ok k (d.at p (ys ++ rest))
            ∙ e.at (p + length xs) rest
            ∙ ap (λ (n : ℕ). ok (b, record { position = n; rest = rest })) (omega arith));
  }

  -- The last step of a block.
  pub Decodes-last :
      {r : Reading A} {xs : List ℕ} {a : A} (g : A → B)
      → Decodes r xs a
      → Decodes (r >>= λ x. pure (g x)) xs (g a)
  unfolding ◌>>=◌ pure
  Decodes-last g d = record { at = λ p rest. continue-ok _ (d.at p rest) }

pub Decodes-fread : (xs : List ℕ) → Decodes (fread (length xs)) xs xs
unfolding fread
Decodes-fread xs = record {
  at = λ p rest. rw (
    le→leb (length xs) (length (xs ++ rest)) (omega (arith, length-append xs rest)),
    take-append xs rest,
    drop-append xs rest,
  );
}

pub Writes-fwrite : (bytes : List ℕ) → Writes (fwrite bytes) bytes
unfolding fwrite
Writes-fwrite bytes = record { at = λ f. refl }

pub Writes-nothing : Writes write_nothing []
unfolding write_nothing
Writes-nothing = record { at = λ f. ground (arith, append-nil f.data_bytes) }

pub Writes-provided :
    {b : Bool} {w : Writing} {bytes : List ℕ}
    → b ≡ true
    → Writes w bytes
    → Writes (provided b w) bytes
unfolding provided
Writes-provided {w} h d = record { at = λ f. rw h (d.at f) }

written-append :
    (xs ys : List ℕ) (w : Writing)
    → Writes w ys
    → (f : OutFile) → then_on (written xs f) w ≡ written (xs ++ ys) f
written-append xs ys w d f = elim (Bool-cases (leb (length xs) f.room)) [
  | inl fits ↦
      rw (fits, length-append xs ys)
        (d.at _ ∙ ground (arith, append_assoc f.data_bytes xs ys, leb→le (length xs) f.room fits))
  | inr full ↦ rw (full, length-append xs ys) (ground arith)
]

pub Writes-then :
    {v w : Writing} {xs ys : List ℕ}
    → Writes v xs
    → Writes w ys
    → Writes (v then_write w) (xs ++ ys)
unfolding ◌then_write◌
Writes-then {v} {w} {xs} {ys} a b = record {
  at = λ f. rw (a.at f, ◌then_write◌) (written-append xs ys w b f);
}

-- The same run of bytes, grouped otherwise.
pub Writes-regroup : {w : Writing} {xs ys : List ℕ} → Writes w xs → xs ≡ ys → Writes w ys
Writes-regroup {w} d e = subst (Writes w) e d

module _ {ℓ} {A : Type ℓ} where
  pub Decodes-with_reason :
      {r : Reading A} {xs : List ℕ} {a : A} (e : Reason)
      → Decodes r xs a
      → Decodes (with_reason e r) xs a
  unfolding with_reason
  Decodes-with_reason e d = record { at = λ p rest. ap (or_reason e) (d.at p rest) }

  pub Decodes-require :
      {k : Reading A} {xs : List ℕ} {a : A} (b : Bool) (e : Reason)
      → b ≡ true
      → Decodes k xs a
      → Decodes (require b e >> k) xs a
  unfolding require ◌>>=◌
  Decodes-require b e h d = record { at = λ p rest. rw h (d.at p rest) }

  pub Decodes-regroup :
      {r : Reading A} {xs ys : List ℕ} {a : A} → Decodes r xs a → xs ≡ ys → Decodes r ys a
  Decodes-regroup {r} {a} d e = subst (λ l. Decodes r l a) e d

  -- A block whose result is tested before it is returned.
  pub Decodes-checked :
      {r : Reading A} {xs : List ℕ} {a : A} (test : A → Bool) (e : Reason)
      → test a ≡ true
      → Decodes r xs a
      → Decodes (r >>= λ x. require (test x) e >> pure x) xs a
  Decodes-checked {r} {xs} {a} test e h d =
      Decodes-regroup (Decodes-bind _ d (Decodes-require (test a) e h (Decodes-pure a)))
        (append-nil xs)
