-- ===== src/Procs/Arguments/Tests.antt =====
-- A run of setup_user_stack for two arguments, in page tables whose every entry leads to frame 2.
use jeos.Prelude.{ℕ, ◌+◌, ◌*◌, ◌≤◌, ◌≡◌, refl, true, some, List, [], ◌∷◌, codes, arith}
use jeos.Path.{string_length}
use jeos.Mem.Paging.{Memory}
use jeos.Procs.Arguments.{
  user_stack_base, Page, stack_frame, setup_user_stack, lay_out, copy_args, push_words,
}
use jeos.Procs.Arguments.Laid.{IsLaid, text_bytes, setup_user_stack-IsLaid}

abbrev memory : Memory
memory = record { words = λ t i. 2 * 4096 + 7; free = [] }

abbrev pages : ℕ → Page
pages f x = 99

abbrev argv : List (List ℕ)
argv = codes "ls" ∷ codes "/bin" ∷ []

walked : stack_frame 1 memory ≡ some 2
unfolding stack_frame
walked = refl

fits : text_bytes argv + 8 * 5 + 15 ≤ 4096
unfolding text_bytes string_length
fits = omega arith

-- The strings take 8 bytes of the page, and the five words end at the multiple of 16 below them.
stack_pointer : (setup_user_stack 1 argv true memory pages).0 ≡ user_stack_base + 4040
unfolding setup_user_stack stack_frame lay_out copy_args push_words string_length
stack_pointer = refl

setup_user_stack-IsLaid_example :
    let (rsp, pages') = setup_user_stack 1 argv true memory pages in
    (sp : ℕ) × (rsp ≡ user_stack_base + sp) × IsLaid argv (sp, pages' 2) × (pages' 3 ≡ pages 3)
setup_user_stack-IsLaid_example =
    setup_user_stack-IsLaid 1 2 3 argv memory pages walked fits (omega arith)
