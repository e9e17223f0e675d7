-- ===== src/Devices/Launches.antt =====
-- Which modules devmgr_add_device starts: kernel/src/devmgr/devmgr.cc.
use neptun_os.Base.{
  ℕ, ◌≡◌, refl, ap, inl, inr, Bool, true, false, ◌&&◌, not, List, [], ◌∷◌, ◌++◌, Outcome, ok, fatal,
  ◌>>=◌, bit_and, ◌==◌, if◌then◌else◌, Bool-cases, arith,
}
use mathlib.Core.Path.{fun_ext}
use neptun_os.Devices.{
  pci, PciDevice, pci_kind, Device, ModuleMetadata, pci_mask, u16_at, same_class, is_triggered,
  get_pci, offer, devmgr_add_device, pci_vendor_product, pci_class_subclass,
  pci_class_subclass_progif,
}

-- What a module asks for.
pub data Wish : Type 0 where
  vendor_product : (vendor product : ℕ) → Wish
  class_subclass : (class subclass : ℕ) → Wish
  class_subclass_progif : (class subclass progif : ℕ) → Wish
  no_pci : Wish

abbrev pub wish : ModuleMetadata → Wish
wish md =
    if md.triggertype == pci_class_subclass_progif
    then class_subclass_progif md.trigger.byte0 md.trigger.byte1 md.trigger.byte2
    else if md.triggertype == pci_class_subclass
    then class_subclass md.trigger.byte0 md.trigger.byte1
    else if md.triggertype == pci_vendor_product
    then vendor_product (u16_at md.trigger.byte0 md.trigger.byte1)
        (u16_at md.trigger.byte2 md.trigger.byte3)
    else no_pci

-- Whether a device is what was asked for.
abbrev pub answers : PciDevice → Wish → Bool
answers p (vendor_product v q) = v == p.vendor && q == p.product
answers p (class_subclass c s) = c == p.class && s == p.subclass
answers p (class_subclass_progif c s g) = (c == p.class && s == p.subclass) && g == p.progif
answers p no_pci = false

-- The modules that ask for the device, in order.
abbrev pub asking : PciDevice → List ModuleMetadata → List ModuleMetadata
asking p [] = []
asking p (md ∷ mds) = if answers p (wish md) then md ∷ asking p mds else asking p mds

and_last : (a b : Bool) → (if not a then false else b) ≡ (b && a)
and_last true true = refl
and_last true false = refl
and_last false true = refl
and_last false false = refl

-- The two tests of the code say whether the device is what the module asks for.
is_triggered-answers :
    (md : ModuleMetadata) (p : PciDevice)
    → (not (bit_and md.triggertype pci_mask == 0) && is_triggered md p) ≡ answers p (wish md)
unfolding is_triggered same_class
is_triggered-answers md p = elim (Bool-cases (md.triggertype == pci_class_subclass_progif)) [
  | inl h ↦
      let e : md.triggertype ≡ 0x103 = ground (arith, h) in
      rw e (and_last (md.trigger.byte2 == p.progif) _)
  | inr no3 ↦ elim (Bool-cases (md.triggertype == pci_class_subclass)) [
    | inl h ↦ let e : md.triggertype ≡ 0x102 = ground (arith, h) in rw e refl
    | inr no2 ↦ elim (Bool-cases (md.triggertype == pci_vendor_product)) [
      | inl h ↦ let e : md.triggertype ≡ 0x101 = ground (arith, h) in rw e refl
      | inr no1 ↦ rw (no3, no2, no1) (and_false (not (bit_and md.triggertype pci_mask == 0)))
    ]
  ]
]
  where
    and_false : (a : Bool) → (a && false) ≡ false
    and_false true = refl
    and_false false = refl

bind_ok {ℓ} : {A : Type ℓ} → (o : Outcome A) → (o >>= λ a. ok a) ≡ o
bind_ok fatal = refl
bind_ok (ok a) = refl

module _ {ℓ} {S : Type ℓ}
    (launch : ModuleMetadata → Device → List Device × S → Outcome (List Device × S)) where
  -- Each of the modules is started, one behind the other.
  abbrev pub launch_all : List ModuleMetadata → Device → List Device × S → Outcome (List Device × S)
  launch_all [] d s = ok s
  launch_all (md ∷ mds) d s = launch md d s >>= launch_all mds d

  -- One round of the loop, with `rest` for the others.
  ask_step :
      (masked triggered asked : Bool)
      → (not masked && triggered) ≡ asked
      → (md : ModuleMetadata) (d : Device) (s : List Device × S) (mds : List ModuleMetadata)
        (rest : List Device × S → Outcome (List Device × S))
      → rest ≡ launch_all mds d
      → elim masked [
        | true ↦ rest s
        | false ↦ elim triggered [ true ↦ launch md d s >>= rest | false ↦ rest s ]
      ]
        ≡ launch_all (if asked then md ∷ mds else mds) d s
  ask_step true triggered asked e md d s mds rest same = rw (← e) (ap (λ f. f s) same)
  ask_step false true asked e md d s mds rest same = rw (← e) (ap (λ f. launch md d s >>= f) same)
  ask_step false false asked e md d s mds rest same = rw (← e) (ap (λ f. f s) same)

  offer-asking :
      (mds : List ModuleMetadata) (p : PciDevice) (s : List Device × S)
      → offer launch mds (record { subsys = pci; kinds = pci_kind p }) s
        ≡ launch_all (asking p mds) (record { subsys = pci; kinds = pci_kind p }) s
  unfolding offer get_pci
  offer-asking [] p s = refl
  offer-asking (md ∷ mds) p s =
      ask_step (bit_and md.triggertype pci_mask == 0) (is_triggered md p) (answers p (wish md))
        (is_triggered-answers md p) md (record { subsys = pci; kinds = pci_kind p }) s
        (asking p mds) (offer launch mds (record { subsys = pci; kinds = pci_kind p }))
        (fun_ext (offer-asking mds p))

  -- A new PCI device is added to the known ones, and starts each module that asks for its vendor and
  -- product, for its class and subclass, or for its class, subclass and programming interface, one
  -- behind the other, and no other module.
  pub devmgr_add_device-asking :
      (scout : Device → List Device × S → Outcome (List Device × S)) (mds : List ModuleMetadata)
      (p : PciDevice) (devices : List Device) (s : S)
      → devmgr_add_device launch scout mds
          (record { subsys = pci; kinds = pci_kind p })
          (devices, s)
        ≡ launch_all
            (asking p mds)
            (record { subsys = pci; kinds = pci_kind p })
            (devices ++ record { subsys = pci; kinds = pci_kind p } ∷ [], s)
  unfolding devmgr_add_device
  devmgr_add_device-asking scout mds p devices s =
      let d : Device = record { subsys = pci; kinds = pci_kind p } in
      rw (offer-asking mds p (devices ++ d ∷ [], s)) (bind_ok _)
