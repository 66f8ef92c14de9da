-- ===== src/PrivateData/Isolation.antt =====
-- The operations on different open files of 07_file_cdev_fops/02_private_data/my_cdev.c.
use linux_driver_development.Base.{
  Bool, Bool-cases, List, Option, Option-cases, [], arith, inl, inr, length, length-append,
  length-replicate, length-take, none, replicate, some, take, ℕ, ◌++◌, ◌-◌, ◌==◌, ◌∙◌, ◌∷◌, ◌≡◌,
  ◌≢◌, ◌≤◌,
}
use linux_driver_development.Kernel.{Bounded, UserAccess, copy_from_user, length-patch}
use linux_driver_development.PrivateData.{
  Files, Reply, dev_buffer_size, my_open, my_read, my_release, my_write, put, write_size,
}
use mathlib.Core.Option

-- What a process asks of a file.
pub data Request : Type 0 where
  open_file : Bool → Request
  release : Request
  read : UserAccess → ℕ → Request
  write : UserAccess → List ℕ → Request

-- `none` is an access beyond a buffer.
unfoldable pub serve : ℕ × Request → Files → Option Files
unfolding my_open my_release my_read my_write
serve (f, open_file allocated) s = some (my_open allocated f s).1
serve (f, release) s = some (my_release f s).1
serve (f, read u count) s = Option.map (λ (r : Reply). r.files) (my_read u f count s)
serve (f, write u src) s = Option.map (λ (r : Reply). r.files) (my_write u f src s)

unfoldable pub serve_all : List (ℕ × Request) → Files → Option Files
unfolding serve
serve_all [] s = some s
serve_all (r ∷ rs) s = elim (serve r s) [ none ↦ none | some s' ↦ serve_all rs s' ]

-- Requests to other files than f.
abbrev pub Elsewhere : ℕ → List (ℕ × Request) → Type 0
Elsewhere f [] = Unit
Elsewhere f ((g, r) ∷ rs) = (f ≢ g) × Elsewhere f rs

pub serve-private_data :
    (f g : ℕ) (r : Request) (s s' : Files)
    → f ≢ g
    → serve (g, r) s ≡ some s'
    → s'.private_data f ≡ s.private_data f
unfolding serve my_open my_release my_read my_write
serve-private_data f g (open_file a) s s' n h = ground arith
serve-private_data f g release s s' n h = ground arith
serve-private_data f g (read u c) s s' n h = ground arith
serve-private_data f g (write u src) s s' n h = ground arith

-- Every buffer has its 64 bytes.
abbrev pub AllSized : Files → Type 0
AllSized s = (f : ℕ) (buf : List ℕ) → s.private_data f ≡ some buf → length buf ≡ dev_buffer_size

-- The copies of the writes fail for no more bytes than they were asked for.
abbrev pub AllBounded : List (ℕ × Request) → Type 0
AllBounded [] = Unit
AllBounded ((f, write u src) ∷ rs) = Bounded u × AllBounded rs
AllBounded ((f, read u count) ∷ rs) = AllBounded rs
AllBounded ((f, open_file allocated) ∷ rs) = AllBounded rs
AllBounded ((f, release) ∷ rs) = AllBounded rs

put-AllSized :
    (f : ℕ) (b : Option (List ℕ)) (s : Files)
    → AllSized s
    → ((buf : List ℕ) → b ≡ some buf → length buf ≡ dev_buffer_size)
    → AllSized (put f b s)
put-AllSized f b s v c g buf h = elim (Bool-cases (g == f)) [
  | inl y ↦ c buf (ground (arith, h, y))
  | inr n ↦ v g buf (ground (arith, h, n))
]

pub write_size-le : (count : ℕ) → (write_size count ≤ count) × (write_size count ≤ dev_buffer_size)
unfolding write_size
write_size-le count = ground arith

-- What a write leaves in a buffer of 64 bytes.
length-received :
    (u : UserAccess) (buf src : List ℕ)
    → Bounded u
    → length buf ≡ dev_buffer_size
    → length (copy_from_user u buf 0 src (write_size (length src))) ≡ dev_buffer_size
unfolding copy_from_user
length-received u buf src b h =
    let n = write_size (length src) in
    length-patch buf 0 (take (n - u.not_copied n) src ++ replicate (u.not_copied n) 0) (
      omega (
        arith,
        b n,
        write_size-le (length src),
        length-append (take (n - u.not_copied n) src) (replicate (u.not_copied n) 0),
        length-take (n - u.not_copied n) src,
        length-replicate {A = ℕ} (u.not_copied n) 0,
        h,
      ))
    ∙ h

-- A write never reaches beyond a buffer of 64 bytes.
my_write-inside :
    (u : UserAccess) (f : ℕ) (src : List ℕ) (s : Files) → AllSized s → my_write u f src s ≢ none
unfolding my_write
my_write-inside u f src s v h = elim (Option-cases (s.private_data f)) [
  | inl n ↦ ground (arith, n, h)
  | inr (buf, e) ↦ ground (arith, e, h, v f buf e, write_size-le (length src))
]

my_write-served :
    (u : UserAccess) (f : ℕ) (src : List ℕ) (s : Files)
    → AllSized s
    → (r : Reply) × (my_write u f src s ≡ some r)
my_write-served u f src s v = elim (Option-cases (my_write u f src s)) [
  | inl n ↦ absurd (my_write-inside u f src s v n)
  | inr served ↦ served
]

serve-AllSized :
    (g : ℕ) (r : Request) (rs : List (ℕ × Request)) (s s' : Files)
    → AllSized s
    → AllBounded ((g, r) ∷ rs)
    → serve (g, r) s ≡ some s'
    → AllSized s' × AllBounded rs
unfolding serve my_open my_release my_read my_write
serve-AllSized g (open_file a) rs s s' v b h =
    let made =
      put-AllSized g (some (replicate dev_buffer_size 0)) s v (λ buf e. ground (arith, e)) in
    ((λ f buf e. ground (arith, h, e, made f buf, v f buf)), b)
serve-AllSized g release rs s s' v b h =
    let gone = put-AllSized g none s v (λ buf e. ground (arith, e)) in
    ((λ f buf e. ground (arith, h, e, gone f buf)), b)
serve-AllSized g (read u c) rs s s' v b h = ((λ f buf e. ground (arith, h, e, v f buf)), b)
serve-AllSized g (write u src) rs s s' v b h = elim (Option-cases (s.private_data g)) [
  | inl n ↦ ((λ f buf e. ground (arith, h, n, e, v f buf)), b.1)
  | inr (old, q) ↦
      let stored = copy_from_user u old 0 src (write_size (length src)) in
      let size = length-received u old src b.0 (v g old q) in
      let kept = put-AllSized g (some stored) s v (λ buf e. ground (arith, e, size)) in
      ((λ f buf e. ground (arith, h, q, e, v f buf, kept f buf)), b.1)
]

serve_all-AllSized :
    (rs : List (ℕ × Request)) (s s' : Files)
    → AllSized s
    → AllBounded rs
    → serve_all rs s ≡ some s'
    → AllSized s'
unfolding serve_all
serve_all-AllSized [] s s' v b h = λ f buf e. ground (arith, h, e, v f buf)
serve_all-AllSized ((g, r) ∷ rs) s s' v b h = elim (Option-cases (serve (g, r) s)) [
  | inl n ↦ ground (arith, n)
  | inr (t, q) ↦
      let (w, b') = serve-AllSized g r rs s t v b q in
      serve_all-AllSized rs t s' w b' (ground (arith, q))
]

pub serve_all-private_data :
    (f : ℕ) (rs : List (ℕ × Request)) (s s' : Files)
    → Elsewhere f rs
    → serve_all rs s ≡ some s'
    → s'.private_data f ≡ s.private_data f
unfolding serve_all
serve_all-private_data f [] s s' e h = ground arith
serve_all-private_data f ((g, r) ∷ rs) s s' e h = elim (Option-cases (serve (g, r) s)) [
  | inl n ↦ ground (arith, n)
  | inr (t, q) ↦
      serve_all-private_data f rs t s' e.1 (ground (arith, q)) ∙ serve-private_data f g r s t e.0 q
]

-- From files whose buffers have 64 bytes on, after any requests to other files than f, writes of any
-- length among them, that are served without an access beyond a buffer, and whose copies fail for no
-- more bytes than they were asked for: the private data of f is as before, every buffer has its 64
-- bytes, and a further write of any length to any file is served without an access beyond that
-- file's buffer.
pub serve_all-Elsewhere :
    (f g : ℕ) (u : UserAccess) (src : List ℕ) (rs : List (ℕ × Request)) (s s' : Files)
    → AllSized s
    → AllBounded rs
    → Elsewhere f rs
    → serve_all rs s ≡ some s'
    → (s'.private_data f ≡ s.private_data f)
      × AllSized s'
      × ((r : Reply) × (my_write u g src s' ≡ some r))
serve_all-Elsewhere f g u src rs s s' v b e h =
    let sized = serve_all-AllSized rs s s' v b h in
    (serve_all-private_data f rs s s' e h, sized, my_write-served u g src s' sized)
