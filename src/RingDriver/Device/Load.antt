-- ===== src/RingDriver/Device/Load.antt =====
-- 27_driver/ringbuf_driver.c: what ringbuf_init acquires and ringbuf_exit releases.
use otus_c_prog.Common.{
  ℕ, ◌≡◌, refl, Option, none, some, List, [], ◌∷◌, ◌++◌, ◌⊎◌, inl, inr, Bool, true, false,
  if◌then◌else◌, Bool-cases, ◌∙◌, sym,
}
use otus_c_prog.RingDriver.{RingBuffer, ok, err}
use otus_c_prog.RingDriver.Device.{
  Resource, buffer, region, cdev, class, device, Action, acquire, release, Kernel, register,
  ringbuf_init, init_over, ringbuf_exit, err_buf, err_region, err_cdev, err_class,
}

-- Two resources of the module are the same.
unfoldable pub same : Resource → Resource → Bool
same buffer buffer = true
same region region = true
same cdev cdev = true
same class class = true
same device device = true
same _ _ = false

-- Resources are released in the reverse order of their acquisition: what is held after some
-- actions, latest first, or `none` if one releases what is not the latest.
unfoldable pub held : List Resource → List Action → Option (List Resource)
held have [] = some have
held have (acquire r ∷ later) = held (r ∷ have) later
held [] (release r ∷ later) = none
held (h ∷ have) (release r ∷ later) = let rest = held have later in if same h r then rest else none

-- Everything that the module needs, latest first.
abbrev pub all_held : List Resource
all_held = device ∷ class ∷ cdev ∷ region ∷ buffer ∷ []

register_lem :
    (k : Kernel)
    → (((register k).0 ≡ ok 0) × (held (buffer ∷ []) (register k).1 ≡ some all_held))
      ⊎ ((e : ℕ) × ((register k).0 ≡ err e) × (held (buffer ∷ []) (register k).1 ≡ some []))
unfolding register held same err_buf err_region err_cdev err_class
register_lem k = by_outcomes k.alloc_chrdev_region k.cdev_add k.class_create k.device_create
  where
    by_outcomes :
        (a b c d : Option ℕ)
        → let k' = record k {
          alloc_chrdev_region = a;
          cdev_add = b;
          class_create = c;
          device_create = d;
        } in
          (((register k').0 ≡ ok 0) × (held (buffer ∷ []) (register k').1 ≡ some all_held))
          ⊎ ((e : ℕ) × ((register k').0 ≡ err e) × (held (buffer ∷ []) (register k').1 ≡ some []))
    by_outcomes (some e) b c d = inr (e, refl, refl)
    by_outcomes none (some e) c d = inr (e, refl, refl)
    by_outcomes none none (some e) d = inr (e, refl, refl)
    by_outcomes none none none (some e) = inr (e, refl, refl)
    by_outcomes none none none none = inl (refl, refl)

-- Loading the module either succeeds and holds the buffer, the device number, the character device,
-- the class and the device; or fails and has released in reverse order whatever it had acquired.
pub ringbuf_init_balanced :
    (k : Kernel) (rb : RingBuffer)
    → (((ringbuf_init k rb).ret ≡ ok 0) × (held [] (ringbuf_init k rb).actions ≡ some all_held))
      ⊎ ((e : ℕ) × ((ringbuf_init k rb).ret ≡ err e)
          × (held [] (ringbuf_init k rb).actions ≡ some []))
unfolding ringbuf_init init_over held
ringbuf_init_balanced k rb = over (k.kmalloc rb.size)
  where
    over :
        (o : Option (List ℕ))
        → (((init_over o k rb).ret ≡ ok 0) × (held [] (init_over o k rb).actions ≡ some all_held))
          ⊎ ((e : ℕ) × ((init_over o k rb).ret ≡ err e)
              × (held [] (init_over o k rb).actions ≡ some []))
    over none = inr (_, refl, refl)
    over (some d) = register_lem k

-- What is held when some actions follow others.
then_held : Option (List Resource) → List Action → Option (List Resource)
then_held none later = none
then_held (some have) later = held have later

held-append :
    (have : List Resource) (before later : List Action)
    → held have (before ++ later) ≡ then_held (held have before) later
unfolding held then_held
held-append have [] later = refl
held-append have (acquire r ∷ before) later = held-append (r ∷ have) before later
held-append [] (release r ∷ before) later = refl
held-append (h ∷ have) (release r ∷ before) later = elim (Bool-cases (same h r)) [
  | inl e ↦ rw e (held-append have before later)
  | inr e ↦ rw e refl
]

-- Unloading releases all of that in reverse order, after a successful load.
pub ringbuf_exit_balanced :
    (k : Kernel) (rb : RingBuffer)
    → (ringbuf_init k rb).ret ≡ ok 0
    → held [] ((ringbuf_init k rb).actions ++ ringbuf_exit) ≡ some []
unfolding then_held held same ringbuf_exit
ringbuf_exit_balanced k rb e = elim (ringbuf_init_balanced k rb) [
  | inl (done, all) ↦ held-append [] (ringbuf_init k rb).actions ringbuf_exit ∙ rw all
  | inr (code, failed, _) ↦ absurd (differ code (sym e ∙ failed))
]
  where
    differ : (code : ℕ) → ok 0 ≡ err code → ⊥
    differ code h = cc
