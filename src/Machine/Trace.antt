-- ===== src/Machine/Trace.antt =====
-- What an observer of the trace sees, in the order of time.
use mega_os.Prelude.{ℕ, List, [], ◌∷◌, ◌++◌, ◌==◌, if◌then◌else◌}
use mega_os.Machine.{Event, out_byte, in_byte, out_wide, in_wide, term, load_gdt, load_idt}

-- The bytes, or wider values, written to a port.
abbrev pub written : ℕ → List Event → List ℕ
written port [] = []
written port (out_byte p v ∷ t) = if p == port then written port t ++ v ∷ [] else written port t
written port (in_byte p v ∷ t) = written port t
written port (out_wide n p v ∷ t) = if p == port then written port t ++ v ∷ [] else written port t
written port (in_wide n p v ∷ t) = written port t
written port (term c ∷ t) = written port t
written port (load_gdt n a ∷ t) = written port t
written port (load_idt n a ∷ t) = written port t

-- The characters on the terminal.
abbrev pub shown : List Event → List ℕ
shown [] = []
shown (out_byte p v ∷ t) = shown t
shown (in_byte p v ∷ t) = shown t
shown (out_wide n p v ∷ t) = shown t
shown (in_wide n p v ∷ t) = shown t
shown (term c ∷ t) = shown t ++ c ∷ []
shown (load_gdt n a ∷ t) = shown t
shown (load_idt n a ∷ t) = shown t
