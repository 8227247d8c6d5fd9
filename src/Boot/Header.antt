-- ===== src/Boot/Header.antt =====
-- What the kernel asks of the loader: the static objects of kernel/kernel.cpp, with the structures of
-- kernel/stivale2.hpp that they are made of. Their addresses are the linker's.
use mega_os.Prelude.{
  ℕ, zero, suc, ◌+◌, ◌%◌, ◌^◌, ◌<◌, ◌≢◌, ◌≡◌, refl, true, false, List, [], ◌∷◌, Option, none, some,
  ◌==◌, if◌then◌else◌, arith,
}
use mega_os.Array.{past_end}

-- `st2::tag`
pub record HeaderTag : Type 0 where
  pub identifier : ℕ
  pub next : ℕ

-- `st2::header`
pub record Header : Type 0 where
  pub entry_point : ℕ
  pub stack : ℕ
  pub flags : ℕ
  pub tags : ℕ

-- `st2::header_tag_framebuffer`
pub record HeaderTagFramebuffer : Type 0 where
  pub tag : HeaderTag
  pub framebuffer_width : ℕ
  pub framebuffer_height : ℕ
  pub framebuffer_bpp : ℕ
  pub unused : ℕ

-- `st2::header_tag_terminal`
pub record HeaderTagTerminal : Type 0 where
  pub tag : HeaderTag
  pub flags : ℕ
  pub callback : ℕ

-- `STIVALE2_HEADER_TAG_FRAMEBUFFER_ID` and `STIVALE2_HEADER_TAG_TERMINAL_ID`
abbrev pub framebuffer_id : ℕ
framebuffer_id = 0x3ecc1bc43d0f7971

abbrev pub terminal_header_id : ℕ
terminal_header_id = 0xa85d499b1823be72

-- the size of `kstack`
abbrev pub kstack_size : ℕ
kstack_size = 8192

-- `terminal_header_tag`
abbrev pub terminal_header_tag : HeaderTagTerminal
terminal_header_tag = record {
  tag = record { identifier = terminal_header_id; next = 0 };
  flags = 0;
  callback = 0;
}

-- `framebuffer_header_tag`, with the address of the other one
abbrev pub framebuffer_header_tag : ℕ → HeaderTagFramebuffer
framebuffer_header_tag terminal_address = record {
  tag = record { identifier = framebuffer_id; next = terminal_address };
  framebuffer_width = 0;
  framebuffer_height = 0;
  framebuffer_bpp = 0;
  unused = 0;
}

-- `st2_header`, with the addresses of `kstack` and of the first tag
unfoldable pub st2_header : ℕ → ℕ → Header
unfolding past_end
st2_header kstack framebuffer_address = record {
  entry_point = 0;
  stack = (kstack + past_end kstack_size) % 2 ^ 64;
  flags = 0b110;
  tags = framebuffer_address;
}

-- The two tags in memory.
abbrev pub tag_at : ℕ → ℕ → ℕ → Option HeaderTag
tag_at framebuffer_address terminal_address address =
    if address == framebuffer_address
    then some (framebuffer_header_tag terminal_address).tag
    else if address == terminal_address
    then some terminal_header_tag.tag
    else none

abbrev requests_from : (ℕ → List ℕ) → Option HeaderTag → List ℕ
requests_from follow none = []
requests_from follow (some t) = t.identifier ∷ follow t.next

-- The identifiers on the list that starts at an address, in at most so many rounds.
abbrev pub requests : (ℕ → Option HeaderTag) → ℕ → ℕ → List ℕ
requests memory zero address = []
requests memory (suc rounds) address =
    if address == 0 then [] else requests_from (requests memory rounds) (memory address)

-- At different addresses that are not null, the header's list asks for a framebuffer and for a terminal, and
-- ends there.
pub requests-st2_header :
    (kstack framebuffer_address terminal_address rounds : ℕ)
    → framebuffer_address ≢ 0
    → terminal_address ≢ 0
    → terminal_address ≢ framebuffer_address
    → requests
        (tag_at framebuffer_address terminal_address)
        (3 + rounds)
        (st2_header kstack framebuffer_address).tags
      ≡ framebuffer_id ∷ terminal_header_id ∷ []
unfolding st2_header
requests-st2_header kstack fb terminal rounds hf ht ne =
    let fuel : 3 + rounds ≡ suc (suc (suc rounds)) = omega arith in
    let first : (fb == 0) ≡ false = ground arith in
    let second : (terminal == 0) ≡ false = ground arith in
    let same : (fb == fb) ≡ true = ground arith in
    let other : (terminal == fb) ≡ false = ground arith in
    let same' : (terminal == terminal) ≡ true = ground arith in
    rw (fuel, first, same, second, other, same') refl

-- The stack that the loader sets up is empty: it starts right behind the array, and is as aligned as that.
pub stack-st2_header :
    (kstack framebuffer_address : ℕ)
    → kstack + kstack_size < 2 ^ 64
    → kstack % 16 ≡ 0
    → ((st2_header kstack framebuffer_address).stack ≡ kstack + kstack_size)
      × ((st2_header kstack framebuffer_address).stack % 16 ≡ 0)
unfolding st2_header past_end
stack-st2_header kstack fb fits aligned = (omega arith, omega arith)
