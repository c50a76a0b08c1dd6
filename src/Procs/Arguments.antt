-- ===== src/Procs/Arguments.antt =====
-- The argument vector on the user stack: setup_user_stack of kernel/proc.c. The page of the stack is its
-- bytes by their offset from its start, 64 bits of it, as the kernel's pointers into the page are.
pub mod Bytes
pub mod Laid
mod Tests
use jeos.Prelude.{
  ℕ, zero, suc, ◌+◌, ◌-◌, ◌*◌, ◌/◌, ◌%◌, ◌^◌, Bool, true, false, Option, none, some, List, [], ◌∷◌,
  ◌++◌, length, take, get_or, ltb, ◌==◌, if◌then◌else◌, ◌>>=◌,
}
use jeos.Path.{string_length}
use jeos.Mem.Paging.{Memory, is_present, frame, pml4_index, pdpt_index, pd_index, pt_index}
use jeos.Procs.{user_stack_top}

abbrev pub user_stack_base : ℕ
user_stack_base = 0x7FFFFFE000

abbrev pub Page : Type 0
Page = ℕ → ℕ

-- A pointer, `n` down.
abbrev pub below : (at n : ℕ) → ℕ
below at n = (at + (2 ^ 64 - n)) % 2 ^ 64

-- `memcpy` of bytes to an offset.
unfoldable pub copy_in : (at : ℕ) → List ℕ → Page → Page
copy_in at bs page x =
    let i = (x + (2 ^ 64 - at)) % 2 ^ 64 in if ltb i (length bs) then get_or bs i 0 else page x

-- The bytes of a word, the lowest first, and a store of a u64.
unfoldable pub word_bytes : (n : ℕ) → ℕ → List ℕ
word_bytes zero w = []
word_bytes (suc n) w = w % 256 ∷ word_bytes n (w / 256)

abbrev pub put_word : (at w : ℕ) → Page → Page
put_word at w page = copy_in at (word_bytes 8 w) page

-- A string with its zero.
abbrev pub text : List ℕ → List ℕ
text a = take (string_length a) a ++ (0 ∷ [])

-- The loop over the arguments, the last one first: the user addresses, the offset of the lowest string,
-- and the page.
unfoldable pub copy_args : List (List ℕ) → Page → List ℕ × ℕ × Page
copy_args [] page = ([], 4096, page)
copy_args (a ∷ args) page =
    let (uvas, sp, page') = copy_args args page in
    let sp' = below sp (string_length a + 1) in
    ((user_stack_base + sp') % 2 ^ 64 ∷ uvas, sp', copy_in sp' (text a) page')

-- `sp--; *sp = w`, for words from the last to the first.
unfoldable pub push_words : List ℕ → (sp : ℕ) → Page → ℕ × Page
push_words [] sp page = (sp, page)
push_words (w ∷ ws) sp page =
    let (sp', page') = push_words ws sp page in (below sp' 8, put_word (below sp' 8) w page')

-- `rsp &= ~15`, as an offset again.
abbrev pub align_down : (sp : ℕ) → ℕ
align_down sp = ((user_stack_base + sp) % 2 ^ 64 / 16 * 16 + (2 ^ 64 - user_stack_base)) % 2 ^ 64

-- `setup_user_stack` in the page: the offset of the stack pointer, and the page. The buffer for the user
-- addresses holds 512 of them.
unfoldable pub lay_out : List (List ℕ) → Page → ℕ × Page
lay_out argv page =
    let (uvas, sp, page') = copy_args argv page in
    push_words (length argv ∷ uvas ++ (0 ∷ 0 ∷ [])) (align_down sp) page'

-- The walk to the page of the stack, by its frame.
unfoldable pub stack_frame : (pml4 : ℕ) → Memory → Option ℕ
stack_frame pml4 m =
    let next : (t i : ℕ) → Option ℕ =
      λ t i. if is_present (m.words t i) then some (frame (m.words t i)) else none in
    next pml4 (pml4_index user_stack_base) >>= λ pdpt.
    next pdpt (pdpt_index user_stack_base) >>= λ pd.
    next pd (pd_index user_stack_base) >>= λ pt. next pt (pt_index user_stack_base)

-- `setup_user_stack`, with whether kalloc has a page for the buffer: the new stack pointer, and the
-- contents of the frames.
unfoldable pub setup_user_stack :
    (pml4 : ℕ) (argv : List (List ℕ)) (page_free : Bool) → Memory → (ℕ → Page) → ℕ × (ℕ → Page)
setup_user_stack pml4 argv page_free m pages = elim (stack_frame pml4 m) [
  | none ↦ (user_stack_top, pages)
  | some f ↦
      (let (sp, page) = lay_out argv (pages f) in
        if page_free
        then ((user_stack_base + sp) % 2 ^ 64, λ g. if g == f then page else pages g)
        else (user_stack_top, pages))
]
