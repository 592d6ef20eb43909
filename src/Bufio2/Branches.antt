-- ===== src/Bufio2/Branches.antt =====
-- Which branch a test of an error, of a buffer or of a Boolean takes.
use ipfs_nosql_frame.Prelude.{
  ℕ, ◌≡◌, true, false, Bool, Option, none, [], ◌∷◌, Bytes, if◌then◌else◌,
}
use ipfs_nosql_frame.Credis.Source.{IoError}
use ipfs_nosql_frame.Bufio2.Reader.{if_failed, if_empty}

pub usable :
    {A : Type 0} (f : IoError → A) (a : A) (e : Option IoError) → e ≡ none → if_failed e f a ≡ a
usable f a e fine = rw fine

pub on_empty : {A : Type 0} (a b : A) (w : Bytes) → w ≡ [] → if_empty w a b ≡ a
on_empty a b w h = rw h

pub on_buffered :
    {A : Type 0} (a b : A) (w : Bytes) (c : ℕ) (v : Bytes) → w ≡ c ∷ v → if_empty w a b ≡ b
on_buffered a b w c v h = rw h

pub when_true : {A : Type 0} (a b : A) (c : Bool) → c ≡ true → (if c then a else b) ≡ a
when_true a b c h = rw h

pub when_false : {A : Type 0} (a b : A) (c : Bool) → c ≡ false → (if c then a else b) ≡ b
when_false a b c h = rw h
