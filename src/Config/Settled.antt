-- ===== src/Config/Settled.antt =====
-- The steps of building a client from a configuration.
use litestream.Prelude.{
  ◌≡◌, refl, ap, subst, inl, inr, Bool, true, false, not, [], Error, Result, ok, err, ◌>>=◌, ◌>>◌,
  if◌then◌else◌, Bool-cases,
}
use litestream.Text.{Text, text_eq}
use litestream.Config.Clients.{or_else, is_set, refuse_if}

-- A setting that is there was taken.
abbrev pub Keeps : Text → Text → Type 0
Keeps a b = or_else a b ≡ b

pub Keeps-self : (a : Text) → Keeps a a
Keeps-self a = elim (Bool-cases (text_eq a [])) [ inl e ↦ rw e refl | inr e ↦ rw e refl ]

pub Keeps-or_else : (a b : Text) → Keeps a (or_else a b)
Keeps-or_else a b = elim (Bool-cases (text_eq a [])) [ inl e ↦ rw e refl | inr e ↦ rw e refl ]

pub refused :
    {A : Type 0} (b : Bool) (e : Error) (next : Result A) (a : A)
    → (refuse_if b e >> next) ≡ ok a
    → (b ≡ false) × (next ≡ ok a)
refused true e next a h = cc
refused false e next a h = (refl, h)

pub bound :
    {A B : Type 0} (m : Result A) (f : A → Result B) (b : B)
    → (m >>= f) ≡ ok b
    → (a : A) × (m ≡ ok a) × (f a ≡ ok b)
bound (err e) f b h = cc
bound (ok a) f b h = (a, refl, h)

-- The settings are those of the configuration, or with those of the URL.
pub settled :
    {A P : Type 0} (Good : A → Type 0) (url : Bool) (read : Result P) (f : P → A) (configured s : A)
    → Good configured
    → ((p : P) → Good (f p))
    → (if url then (read >>= λ p. ok (f p)) else ok configured) ≡ ok s
    → Good s
settled Good true (err e) f configured s c d h = cc
settled Good true (ok p) f configured s c d h = let same : f p ≡ s = cc in subst Good same (d p)
settled Good false read f configured s c d h = let same : configured ≡ s = cc in subst Good same c

pub set_of : (a : Text) → text_eq a [] ≡ false → is_set a ≡ true
set_of a h = ap not h
