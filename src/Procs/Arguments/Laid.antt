-- ===== src/Procs/Arguments/Laid.antt =====
-- What setup_user_stack of kernel/proc.c leaves in the page of the stack.
use jeos.Prelude.{
  ℕ, ◌+◌, ◌*◌, ◌%◌, ◌^◌, ◌≤◌, ◌≡◌, ◌≢◌, refl, sym, subst, true, false, some, ◌==◌, ◌∙◌, List, [],
  ◌∷◌, ◌++◌, length, take, length-take, length-append, arith,
}
use jeos.Path.{string_length}
use jeos.Mem.Paging.{Memory}
use jeos.Procs.Arguments.{
  Page, user_stack_base, below, copy_in, word_bytes, text, copy_args, push_words, align_down,
  lay_out, stack_frame, setup_user_stack,
}
use jeos.Procs.Arguments.Bytes.{
  IsAt, IsSame, copy_in-IsAt, copy_in-IsSame, IsAt-IsSame, IsSame-trans, length-word_bytes,
}

-- Words stand in the page one behind the other.
pub AreAt : Page → (at : ℕ) → List ℕ → Type 0
AreAt page at [] = Unit
AreAt page at (w ∷ ws) = IsAt page at (word_bytes 8 w) × AreAt page (at + 8) ws

-- Each address is that of a copy of its argument in the page, from the offset `low` on.
pub AreTexts : Page → (low : ℕ) → List ℕ → List (List ℕ) → Type 0
AreTexts page low [] [] = Unit
AreTexts page low [] (a ∷ args) = ⊥
AreTexts page low (u ∷ us) [] = ⊥
AreTexts page low (u ∷ us) (a ∷ args) =
    ((o : ℕ) × (u ≡ user_stack_base + o)
      × (low ≤ o)
      × (o + length (text a) ≤ 4096)
      × IsAt page o (text a))
    × AreTexts page low us args

-- The bytes that the strings take.
unfoldable pub text_bytes : List (List ℕ) → ℕ
text_bytes [] = 0
text_bytes (a ∷ args) = (string_length a + 1) + text_bytes args

string_length_le : (a : List ℕ) → string_length a ≤ length a
unfolding string_length
string_length_le [] = omega arith
string_length_le (x ∷ a) = ground (arith, string_length_le a)

length-take_string : (a : List ℕ) → length (take (string_length a) a) ≡ string_length a
length-take_string a = omega (arith, length-take (string_length a) a, string_length_le a)

length-text : (a : List ℕ) → length (text a) ≡ string_length a + 1
length-text a =
    length-append (take (string_length a) a) (0 ∷ []) ∙ omega (arith, length-take_string a)

AreAt-IsSame :
    (ws : List ℕ) (at : ℕ) (p q : Page)
    → at + 8 * length ws ≤ 4096
    → IsSame at 4096 p q
    → AreAt p at ws
    → AreAt q at ws
unfolding AreAt
AreAt-IsSame [] at p q room same is = tt
AreAt-IsSame (w ∷ ws) at p q room same (is, more) = (
  IsAt-IsSame at at (word_bytes 8 w) p q (omega arith) (omega (arith, room, length-word_bytes 8 w))
      same is,
  AreAt-IsSame ws (at + 8) p q (omega (arith, room))
      (λ x low high. same x (omega (arith, low)) high) more,
)

AreTexts-IsSame :
    (us : List ℕ) (args : List (List ℕ)) (low to : ℕ) (p q : Page)
    → IsSame to 4096 p q
    → to ≤ low
    → AreTexts p low us args
    → AreTexts q low us args
unfolding AreTexts
AreTexts-IsSame [] [] low to p q same h is = tt
AreTexts-IsSame [] (a ∷ args) low to p q same h is = is
AreTexts-IsSame (u ∷ us) [] low to p q same h is = is
AreTexts-IsSame (u ∷ us) (a ∷ args) low to p q same h ((o, at, from, room, is), more) = (
  (o, at, from, room, IsAt-IsSame o to (text a) p q (omega (arith, from, h)) room same is),
  AreTexts-IsSame us args low to p q same h more,
)

AreTexts-lower :
    (us : List ℕ) (args : List (List ℕ)) (low to : ℕ) (p : Page)
    → to ≤ low
    → AreTexts p low us args
    → AreTexts p to us args
unfolding AreTexts
AreTexts-lower [] [] low to p h is = tt
AreTexts-lower [] (a ∷ args) low to p h is = is
AreTexts-lower (u ∷ us) [] low to p h is = is
AreTexts-lower (u ∷ us) (a ∷ args) low to p h ((o, at, from, room, is), more) =
    ((o, at, omega (arith, from, h), room, is), AreTexts-lower us args low to p h more)

-- What the loop over the arguments leaves.
record Copied (args : List (List ℕ)) (r : List ℕ × ℕ × Page) : Type 0 where
  pub place : r.1 + text_bytes args ≡ 4096
  pub count : length r.0 ≡ length args
  pub texts : AreTexts r.2 r.1 r.0 args

copy_args-Copied :
    (args : List (List ℕ)) (page : Page)
    → text_bytes args ≤ 4096
    → Copied args (copy_args args page)
unfolding copy_args text_bytes AreTexts
copy_args-Copied [] page room = record { place = refl; count = refl; texts = tt }
copy_args-Copied (a ∷ args) page room =
    let r = copy_args args page in
    let c = copy_args-Copied args page (omega (arith, room)) in
    let sp = below r.1 (string_length a + 1) in
    let at : sp + (string_length a + 1) ≡ r.1 = omega (arith, room, c.place) in
    let fits : sp + length (text a) ≤ 4096 = omega (arith, at, length-text a, c.place) in
    let here : (user_stack_base + sp) % 2 ^ 64 ≡ user_stack_base + sp = omega (arith, fits) in
    record {
      place = omega (arith, at, c.place);
      count = omega (arith, c.count);
      texts = (
        (sp, here, omega arith, fits, copy_in-IsAt sp (text a) r.2 fits),
        AreTexts-lower r.0 args r.1 sp (copy_in sp (text a) r.2) (omega (arith, at)) (
            AreTexts-IsSame r.0 args r.1 (sp + length (text a)) r.2 (copy_in sp (text a) r.2)
              (copy_in-IsSame sp (text a) r.2 fits) (omega (arith, at, length-text a)) c.texts),
      );
    }

-- What the pushes leave.
record Pushed (ws : List ℕ) (sp : ℕ) (page : Page) (r : ℕ × Page) : Type 0 where
  pub place : r.0 + 8 * length ws ≡ sp
  pub words : AreAt r.1 r.0 ws
  pub same : IsSame sp 4096 page r.1

push_words-Pushed :
    (ws : List ℕ) (sp : ℕ) (page : Page)
    → 8 * length ws ≤ sp
    → sp ≤ 4096
    → Pushed ws sp page (push_words ws sp page)
unfolding push_words AreAt
push_words-Pushed [] sp page room high = record {
  place = omega arith;
  words = tt;
  same = λ x low top. refl;
}
push_words-Pushed (w ∷ ws) sp page room high =
    let r = push_words ws sp page in
    let done = push_words-Pushed ws sp page (omega (arith, room)) high in
    let at = below r.0 8 in
    let bs = word_bytes 8 w in
    let eight = length-word_bytes 8 w in
    let down : at + 8 ≡ r.0 = omega (arith, done.place, room, high) in
    let fits : at + length bs ≤ 4096 = omega (arith, down, eight, done.place, high) in
    let q = copy_in at bs r.1 in
    let kept : IsSame (at + 8) 4096 r.1 q =
      λ x low top. copy_in-IsSame at bs r.1 fits x (omega (arith, eight, low)) top in
    record {
      place = omega (arith, down, done.place);
      words = (
        copy_in-IsAt at bs r.1 fits,
        AreAt-IsSame ws (at + 8) r.1 q (omega (arith, down, done.place, high)) kept
            (subst (λ b. AreAt r.1 b ws) (sym down) done.words),
      );
      same =
          IsSame-trans sp sp 4096 page r.1 q (omega arith) done.same
            (λ x low top. kept x (omega (arith, down, done.place, low)) top);
    }

-- The argument vector in the page: at the stack pointer the number of the arguments, the addresses of
-- their copies, and two zeros; the copies above them; and the end of the words at a multiple of 16.
pub record IsLaid (argv : List (List ℕ)) (r : ℕ × Page) : Type 0 where
  pub uvas : List ℕ
  pub words : AreAt r.1 r.0 (length argv ∷ uvas ++ (0 ∷ 0 ∷ []))
  pub texts : AreTexts r.1 (r.0 + 8 * (length argv + 3)) uvas argv
  pub inside : r.0 + 8 * (length argv + 3) ≤ 4096
  pub aligned : (user_stack_base + r.0 + 8 * (length argv + 3)) % 16 ≡ 0

lay_out-IsLaid :
    (argv : List (List ℕ)) (page : Page)
    → text_bytes argv + 8 * (length argv + 3) + 15 ≤ 4096
    → IsLaid argv (lay_out argv page)
unfolding lay_out
lay_out-IsLaid argv page room =
    let c = copy_args argv page in
    let copied = copy_args-Copied argv page (omega (arith, room)) in
    let ws = length argv ∷ c.0 ++ (0 ∷ 0 ∷ []) in
    let count : length ws ≡ length argv + 3 =
      omega (arith, length-append c.0 (0 ∷ 0 ∷ []), copied.count) in
    let sp = align_down c.1 in
    let low : sp ≤ c.1 = omega (arith, copied.place) in
    let near : c.1 ≤ sp + 15 = omega (arith, copied.place) in
    let sixteen : (user_stack_base + sp) % 16 ≡ 0 = omega (arith, copied.place) in
    let pushed =
      push_words-Pushed ws sp c.2 (omega (arith, count, near, copied.place, room))
        (omega (arith, low, copied.place)) in
    let r = push_words ws sp c.2 in
    let end : r.0 + 8 * (length argv + 3) ≡ sp = omega (arith, pushed.place, count) in
    record {
      uvas = c.0;
      words = pushed.words;
      texts =
          AreTexts-lower c.0 argv c.1 (r.0 + 8 * (length argv + 3)) r.1 (omega (arith, end, low))
            (AreTexts-IsSame c.0 argv c.1 sp c.2 r.1 pushed.same low copied.texts);
      inside = omega (arith, end, low, copied.place);
      aligned = omega (arith, end, sixteen);
    }

-- `setup_user_stack` puts the argument vector into the page of the stack and returns the stack pointer
-- at it: the number of the arguments, then the address of a copy of each with its zero, then two zeros,
-- the copies above these words and within the page, and the end of the words at a multiple of 16; no
-- other frame changes. When the page of the stack is mapped, a page is free for the buffer, and the
-- strings and words with 15 bytes to spare fit into one page.
pub setup_user_stack-IsLaid :
    (pml4 f g : ℕ) (argv : List (List ℕ)) (m : Memory) (pages : ℕ → Page)
    → stack_frame pml4 m ≡ some f
    → text_bytes argv + 8 * (length argv + 3) + 15 ≤ 4096
    → g ≢ f
    → let (rsp, pages') = setup_user_stack pml4 argv true m pages in
      (sp : ℕ) × (rsp ≡ user_stack_base + sp) × IsLaid argv (sp, pages' f) × (pages' g ≡ pages g)
unfolding setup_user_stack
setup_user_stack-IsLaid pml4 f g argv m pages walk room other =
    let laid = lay_out-IsLaid argv (pages f) room in
    let r = lay_out argv (pages f) in
    let inside : r.0 ≤ 4096 = omega (arith, laid.inside) in
    let here : (f == f) ≡ true = ground arith in
    let there : (g == f) ≡ false = ground (arith, other) in
    rw (setup_user_stack, walk, here, there) (r.0, omega (arith, inside), laid, refl)
