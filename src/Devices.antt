-- ===== src/Devices.antt =====
-- The device manager, kernel/src/devmgr/devmgr.cc: which modules a new device starts, and which one mounts a
-- volume. The devices that are known are a list; `S` is the rest of the state. What a module does when it is
-- started (modules_launch, modules_launch_fs) and the search for partitions (msd_scout) are arguments.
pub mod Launches
pub mod Mounting
use neptun_os.Base.{
  ℕ, ◌+◌, ◌*◌, Bool, true, false, ◌&&◌, not, List, [], ◌∷◌, ◌++◌, Outcome, ok, fatal, ◌>>=◌,
  bit_and, ◌==◌, if◌then◌else◌,
}

-- `DevmgrSubsys`
pub data DevmgrSubsys : Type 0 where
  no_subsys : DevmgrSubsys
  pci : DevmgrSubsys
  usb : DevmgrSubsys
  msd : DevmgrSubsys

-- `device_t_PCI`
pub record PciDevice : Type 0 where
  pub vendor : ℕ
  pub product : ℕ
  pub class : ℕ
  pub subclass : ℕ
  pub progif : ℕ

-- The variant `devunion_t`, as far as the manager looks into it.
pub data Kinds : Type 0 where
  pci_kind : PciDevice → Kinds
  other_kind : Kinds

pub record Device : Type 0 where
  pub subsys : DevmgrSubsys
  pub kinds : Kinds

-- The four bytes of the union `ModuleTrigger`.
pub record ModuleTrigger : Type 0 where
  pub byte0 : ℕ
  pub byte1 : ℕ
  pub byte2 : ℕ
  pub byte3 : ℕ

pub record ModuleMetadata : Type 0 where
  pub name : List ℕ
  pub triggertype : ℕ
  pub trigger : ModuleTrigger

abbrev pub pci_mask : ℕ
pci_mask = 0x100

abbrev pub pci_vendor_product : ℕ
pci_vendor_product = 0x101

abbrev pub pci_class_subclass : ℕ
pci_class_subclass = 0x102

abbrev pub pci_class_subclass_progif : ℕ
pci_class_subclass_progif = 0x103

abbrev pub filesystem_trigger : ℕ
filesystem_trigger = 0x400

-- A u16 of the union, the low byte first.
abbrev pub u16_at : (low high : ℕ) → ℕ
u16_at low high = low + 256 * high

-- `kinds.get<device_t_PCI>()`
unfoldable pub get_pci : Kinds → Outcome PciDevice
get_pci (pci_kind p) = ok p
get_pci other_kind = fatal

-- The case PCI_CLASS_SUBCLASS, into which the one with progif falls.
unfoldable pub same_class : ModuleTrigger → PciDevice → Bool
same_class t p = t.byte0 == p.class && t.byte1 == p.subclass

-- The inner switch: whether it launches the module.
unfoldable pub is_triggered : ModuleMetadata → PciDevice → Bool
unfolding same_class
is_triggered md p =
    if md.triggertype == pci_class_subclass_progif
    then (if not (md.trigger.byte2 == p.progif) then false else same_class md.trigger p)
    else if md.triggertype == pci_class_subclass
    then same_class md.trigger p
    else if md.triggertype == pci_vendor_product
    then u16_at md.trigger.byte0 md.trigger.byte1 == p.vendor
      && u16_at md.trigger.byte2 md.trigger.byte3 == p.product
    else false

module _ {ℓ} {S : Type ℓ}
    (launch : ModuleMetadata → Device → List Device × S → Outcome (List Device × S)) where
  -- The loop over the modules.
  unfoldable pub offer : List ModuleMetadata → Device → List Device × S → Outcome (List Device × S)
  unfolding get_pci is_triggered
  offer [] d s = ok s
  offer (md ∷ mds) d s = elim d.subsys [
    | no_subsys ↦ offer mds d s
    | usb ↦ offer mds d s
    | msd ↦ offer mds d s
    | pci ↦ elim (bit_and md.triggertype pci_mask == 0) [
      | true ↦ offer mds d s
      | false ↦ get_pci d.kinds >>= λ p. elim (is_triggered md p) [
        | true ↦ launch md d s >>= offer mds d
        | false ↦ offer mds d s
      ]
    ]
  ]

  unfoldable pub devmgr_add_device :
      (scout : Device → List Device × S → Outcome (List Device × S))
      → List ModuleMetadata
      → Device
      → List Device × S
      → Outcome (List Device × S)
  unfolding offer
  devmgr_add_device scout mds d (devices, s) = offer mds d (devices ++ d ∷ [], s) >>= λ s'.
      elim d.subsys [ msd ↦ scout d s' | no_subsys ↦ ok s' | pci ↦ ok s' | usb ↦ ok s' ]

-- `modules_launch_fs` tells whether the module has mounted the volume.
module _ {ℓ} {S : Type ℓ} (launch_fs : ModuleMetadata → S → Outcome (Bool × S)) where
  unfoldable pub devmgr_try_mount : List ModuleMetadata → S → Outcome S
  devmgr_try_mount [] s = ok s
  devmgr_try_mount (md ∷ mds) s = elim (md.triggertype == filesystem_trigger) [
    | true ↦ launch_fs md s >>= λ (mounted, s'). elim mounted [
      | true ↦ ok s'
      | false ↦ devmgr_try_mount mds s'
    ]
    | false ↦ devmgr_try_mount mds s
  ]
