-- ===== src/Procs/Loader/Enough.antt =====
-- The memory that elf_load_segments of kernel/proc.c needs: four pages for each page that it maps.
use jeos.Prelude.{
  ℕ, zero, suc, ◌+◌, ◌*◌, ◌≤◌, ◌≡◌, refl, inl, inr, true, some, if◌then◌else◌, ◌==◌, length,
  Bool-cases, List-cases, ap, arith,
}
use jeos.Mem.Paging.{
  Memory, page_bytes, is_present, frame, pte, pml4_index, pdpt_index, pd_index, pt_index,
  write_entry, clear, alloc_page, ensure, map_with,
}
use jeos.Procs.Arguments.{Page}
use jeos.Procs.Loader.{Space, load_page, load_pages}

ensure-enough :
    (k t i fl : ℕ) (m : Memory)
    → k + 1 ≤ length m.free
    → (f : ℕ) × (m' : Memory) × (ensure t i fl m ≡ some (f, m')) × (k ≤ length m'.free)
unfolding ensure alloc_page
ensure-enough k t i fl m room = elim (Bool-cases (is_present (m.words t i))) [
  | inl there ↦ (frame (m.words t i), m, rw (ensure, there) refl, omega (arith, room))
  | inr absent ↦ elim (List-cases m.free) [
    | inl e ↦ absurd (omega (arith, ap length e, room))
    | inr (h, rest, e) ↦ (
      h,
      write_entry t i (h * page_bytes + fl) (clear h (record m { free = rest })),
      rw (ensure, absent, alloc_page, e) refl,
      omega (arith, ap length e, room),
    )
  ]
]

map_with-enough :
    (k fl root va phys flags : ℕ) (m : Memory)
    → k + 3 ≤ length m.free
    → (m' : Memory) × (map_with fl root va phys flags m ≡ some m') × (k ≤ length m'.free)
unfolding map_with
map_with-enough k fl root va phys flags m room =
    let (pdpt, m₁, r₁, k₁) =
      ensure-enough (k + 2) root (pml4_index va) fl m (omega (arith, room)) in
    let (pd, m₂, r₂, k₂) = ensure-enough (k + 1) pdpt (pdpt_index va) fl m₁ (omega (arith, k₁)) in
    let (pt, m₃, r₃, k₃) = ensure-enough k pd (pd_index va) fl m₂ (omega (arith, k₂)) in
    (write_entry pt (pt_index va) (pte phys flags) m₃, rw (map_with, r₁, r₂, r₃) refl, k₃)

load_page-enough :
    (k root va flags : ℕ) (page : Page) (a : Space)
    → k + 4 ≤ length a.tables.free
    → (a' : Space) × (load_page root va flags page a ≡ some (true, a'))
      × (k ≤ length a'.tables.free)
unfolding load_page alloc_page
load_page-enough k root va flags page a room = elim (List-cases a.tables.free) [
  | inl e ↦ absurd (omega (arith, ap length e, room))
  | inr (f, rest, e) ↦
      (let m : Memory = record a.tables { free = rest } in
        let got : alloc_page a.tables ≡ some (f, m) = rw (alloc_page, e) refl in
        let (m', mapped, left) =
          map_with-enough k 7 root va (f * 4096) flags (clear f m)
            (omega (arith, ap length e, room)) in
        (
          record { tables = m'; pages = λ g. if g == f then page else a.pages g },
          rw (load_page, got, mapped) refl,
          left,
        ))
]

pub load_pages-enough :
    (k r root va flags : ℕ) (page : ℕ → Page) (a : Space)
    → k + 4 * r ≤ length a.tables.free
    → (a' : Space) × (load_pages r root va flags page a ≡ some (true, a'))
      × (k ≤ length a'.tables.free)
unfolding load_pages
load_pages-enough k zero root va flags page a room = (a, refl, omega (arith, room))
load_pages-enough k (suc r) root va flags page a room =
    let (a₁, run, left) =
      load_page-enough (k + 4 * r) root va flags (page va) a (omega (arith, room)) in
    let (a₂, rest, end) = load_pages-enough k r root (va + 4096) flags page a₁ left in
    (a₂, rw (load_pages, run) rest, end)
