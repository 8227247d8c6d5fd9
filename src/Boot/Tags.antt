-- ===== src/Boot/Tags.antt =====
-- The search of the bootloader's list of tags.
use mega_os.Prelude.{
  ℕ, zero, suc, ◌<◌, ◌≢◌, ◌≡◌, refl, ap, false, List, [], ◌∷◌, Option, some, ◌==◌, if◌then◌else◌,
  length, arith, done, Bool-cases, inl, inr,
}
use mega_os.Machine.{Machine}
use mega_os.Boot.{
  BootInfo, Tag, Search, found, missing, get_tag, terminal_id, write_of, get_write_function,
}

-- From an address on, the memory holds these tags, each linked to the next one, the last to null.
pub data Chain (memory : ℕ → Option Tag) : ℕ → List Tag → Type 0 where
  end : Chain memory 0 []
  link :
      {address : ℕ} {tag : Tag} {tags : List Tag}
      → address ≢ 0
      → memory address ≡ some tag
      → Chain memory tag.next tags
      → Chain memory address (tag ∷ tags)

-- The first tag with an identifier.
abbrev pub first_with : ℕ → List Tag → Search
first_with id [] = missing
first_with id (tag ∷ tags) = if tag.identifier == id then found tag else first_with id tags

-- Over a chain of tags that ends in null, `get_tag` finds the first tag with the identifier, or
-- null if there is none, in more rounds than there are tags.
pub get_tag-first_with :
    {memory : ℕ → Option Tag} {address : ℕ} {tags : List Tag} (rounds id : ℕ)
    → Chain memory address tags
    → length tags < rounds
    → get_tag memory rounds address id ≡ first_with id tags
unfolding get_tag
get_tag-first_with zero id chain h = elim h [ ]
get_tag-first_with (suc rounds) id end h = refl
get_tag-first_with (suc rounds) id (link {address} {tag} {tags} ne e chain) h =
    let live : (address == 0) ≡ false = ground arith in
    rw (live, e)
      (ap (λ rest. if tag.identifier == id then found tag else rest)
        (get_tag-first_with rounds id chain (omega arith)))

-- The function that a search for the terminal's tag leads to; it is null if there is no tag.
abbrev pub function_of : Search → ℕ
function_of (found tag) = tag.term_write
function_of _ = 0

-- A search over a list of tags ends.
write_of-function_of :
    (tags : List Tag) (m : Machine)
    → write_of (first_with terminal_id tags) m ≡ done (function_of (first_with terminal_id tags)) m
write_of-function_of [] m = refl
write_of-function_of (tag ∷ tags) m = elim (Bool-cases (tag.identifier == terminal_id)) [
  | inl e ↦ rw e refl
  | inr e ↦ rw e (write_of-function_of tags m)
]

pub get_write_function-function_of :
    {tags : List Tag} (info : BootInfo) (rounds : ℕ) (m : Machine)
    → Chain info.memory info.tags tags
    → length tags < rounds
    → get_write_function info rounds m ≡ done (function_of (first_with terminal_id tags)) m
unfolding get_write_function
get_write_function-function_of {tags} info rounds m chain enough =
    rw (get_tag-first_with rounds terminal_id chain enough) (write_of-function_of tags m)
