-- ===== src/Tests/OnModules.antt =====
-- Paths, mount points, devices and the loaders of modules and programs.
use neptun_os.Base.{
  ◌==◌, ◌<◌, ℕ, ◌+◌, ◌%◌, ◌≡◌, refl, inl, false, List, [], ◌∷◌, ◌++◌, Outcome, ok, arith,
}
use neptun_os.Arith.{align}
use neptun_os.Text.{Bytes}
use neptun_os.Text.Compare.{same}
use neptun_os.Modules.{Section, Symbol, Rela, Space, is_loaded, relocate, write_all}
use neptun_os.Modules.Load.{Loads, load_sections-AreLoaded}
use neptun_os.Modules.Link.{ArePatched, IsApart, relocate-patched}
use neptun_os.Devices.{
  PciDevice, ModuleTrigger, ModuleMetadata, Device, pci, pci_kind, devmgr_add_device,
}
use neptun_os.Devices.Launches.{asking, launch_all, devmgr_add_device-asking}
use neptun_os.Paths.{sanitize_from, path_basename}
use neptun_os.Paths.Clean.{IsClean, parts, push_all, sanitize_from-IsClean}
use neptun_os.Paths.Basename.{path_basename-NoSlash}

-- ".text" and ".bss" of a module
abbrev text : Section
text = record { name = b't' ∷ []; kind = 1; flags = 6; addr = 0; offset = 64; size = 100; info = 0 }

abbrev bss : Section
bss = record { name = b'b' ∷ []; kind = 8; flags = 3; addr = 0; offset = 164; size = 40; info = 0 }

abbrev empty_space : Space
empty_space = record {
  pages = λ p. false;
  bytes = λ x. 0;
  tables = λ level index. false;
  frames = 16;
  table_room = 64;
}

abbrev file_bytes : ℕ → ℕ
file_bytes x = x % 256

load_sections-AreLoaded_example : Loads file_bytes (text ∷ bss ∷ []) 0xfffffff000000000 empty_space
unfolding is_loaded align
load_sections-AreLoaded_example =
    load_sections-AreLoaded file_bytes (text ∷ bss ∷ []) 0xfffffff000000000 empty_space
      (omega arith, (omega arith, tt)) refl (omega arith) (omega arith) (omega arith)

-- A module that calls "f" of the kernel, and holds one symbol of its own.
abbrev kernel_f : Symbol
kernel_f = record { name = b'f' ∷ []; info = 18; shndx = 1; value = 0xffffffff80001000 }

abbrev module_f : Symbol
module_f = record { name = b'f' ∷ []; info = 16; shndx = 0; value = 0 }

abbrev module_g : Symbol
module_g = record { name = b'g' ∷ []; info = 18; shndx = 1; value = 8 }

abbrev relocations : List Rela
relocations =
    record { offset = 16; symbol = 0; kind = 1; addend = 0 }
    ∷ record { offset = 24; symbol = 1; kind = 1; addend = 4 }
    ∷ []

-- The page of the section is mapped.
abbrev one_page : Space
one_page = record empty_space { pages = λ p. p == 1 }

relocate-patched_example :
    (written : List (ℕ × ℕ)) × (m' : Space) × (relocate
        (kernel_f ∷ [])
        (bss ∷ text ∷ [])
        (module_f ∷ module_g ∷ [])
        0x1000
        relocations
      ≡ ok written)
    × (write_all written one_page ≡ ok m')
    × ArePatched 0x1000 relocations (0xffffffff80001000 ∷ 8 ∷ []) m'
    × ((at i : ℕ)
        → i < 8
        → IsApart 0x1000 at relocations
        → m'.bytes (at + i) ≡ one_page.bytes (at + i))
unfolding same
relocate-patched_example =
    relocate-patched (kernel_f ∷ []) (bss ∷ text ∷ []) (module_f ∷ module_g ∷ []) 0x1000 relocations
      (0xffffffff80001000 ∷ 8 ∷ []) one_page ((omega arith, tt), tt)
      (
        module_f,
        refl,
        (omega arith, tt),
        omega arith,
        refl,
        refl,
        (module_g, refl, (omega arith, tt), omega arith, refl, refl, tt),
      )
      ((inl (omega arith), tt), (tt, tt)) (refl, refl, (refl, refl, tt))

-- "a//b", with the front of a list of bytes for the string
sanitize_from-IsClean_example :
    (r : Bytes) × ((ret : Bytes)
      → sanitize_from (λ c s. ok (c ∷ s)) false (0x61 ∷ b'/' ∷ b'/' ∷ 0x62 ∷ 0 ∷ []) ret
        ≡ push_all (λ c s. ok (c ∷ s)) r ret)
    × IsClean r
    × (parts r ≡ parts (0x61 ∷ b'/' ∷ b'/' ∷ 0x62 ∷ []))
    × ((ret : Bytes)
        → sanitize_from (λ c s. ok (c ∷ s)) false (r ++ 0 ∷ []) ret
          ≡ push_all (λ c s. ok (c ∷ s)) r ret)
sanitize_from-IsClean_example =
    sanitize_from-IsClean (λ c s. ok (c ∷ s)) (0x61 ∷ b'/' ∷ b'/' ∷ 0x62 ∷ []) [] []
      (omega arith, (omega arith, (omega arith, (omega arith, tt))))

-- "/a/bc" and "/a/bc/"
path_basename-NoSlash_example :
    (path_basename (b'/' ∷ 0x61 ∷ b'/' ∷ 0x62 ∷ 0x63 ∷ 0 ∷ []) ≡ ok (0x62 ∷ 0x63 ∷ 0 ∷ []))
    × (path_basename (b'/' ∷ 0x61 ∷ b'/' ∷ 0x62 ∷ 0x63 ∷ b'/' ∷ 0 ∷ [])
        ≡ ok (0x62 ∷ 0x63 ∷ 0 ∷ 0 ∷ []))
path_basename-NoSlash_example =
    path_basename-NoSlash (b'/' ∷ 0x61 ∷ []) (0x63 ∷ []) [] 0x62
      (omega arith, (omega arith, (omega arith, (omega arith, (omega arith, tt)))))
      (omega arith, (omega arith, tt)) (omega arith)

-- A network card, and modules for one, for any display and for a volume.
abbrev card : PciDevice
card = record { vendor = 0x8086; product = 0x100e; class = 2; subclass = 0; progif = 0 }

abbrev trigger : (b0 b1 b2 b3 : ℕ) → ModuleTrigger
trigger b0 b1 b2 b3 = record { byte0 = b0; byte1 = b1; byte2 = b2; byte3 = b3 }

abbrev card_modules : List ModuleMetadata
card_modules =
    record { name = []; triggertype = 0x101; trigger = trigger 0x86 0x80 0x0e 0x10 }
    ∷ record { name = []; triggertype = 0x102; trigger = trigger 3 0 0 0 }
    ∷ record { name = []; triggertype = 0x103; trigger = trigger 2 0 0 0 }
    ∷ record { name = []; triggertype = 0x400; trigger = trigger 0 0 0 0 }
    ∷ []

-- Each module that is started counts itself.
abbrev count_launch : ModuleMetadata → Device → List Device × ℕ → Outcome (List Device × ℕ)
count_launch md d (devices, n) = ok (devices, n + 1)

abbrev no_scout : Device → List Device × ℕ → Outcome (List Device × ℕ)
no_scout d s = ok s

devmgr_add_device-asking_example :
    devmgr_add_device count_launch no_scout card_modules
      (record { subsys = pci; kinds = pci_kind card })
      ([], 0)
    ≡ launch_all count_launch
        (asking card card_modules)
        (record { subsys = pci; kinds = pci_kind card })
        (record { subsys = pci; kinds = pci_kind card } ∷ [], 0)
devmgr_add_device-asking_example =
    devmgr_add_device-asking count_launch no_scout card_modules card [] 0

two_launches :
    launch_all count_launch
      (asking card card_modules)
      (record { subsys = pci; kinds = pci_kind card })
      (record { subsys = pci; kinds = pci_kind card } ∷ [], 0)
    ≡ ok (record { subsys = pci; kinds = pci_kind card } ∷ [], 2)
two_launches = refl
