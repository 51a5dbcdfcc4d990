-- ===== src/Fs/Extent/Tests.antt =====
-- assignment-3/fs.c: runs of `readi` and `writei`.
use cs_1217_operating_system.Base.{◌+◌, ◌≡◌, ◌≤◌, refl, none, arith, [], ◌∷◌, ◌-◌, some}
use cs_1217_operating_system.Fs.{Fs}
use cs_1217_operating_system.Fs.Bytes.{Bytes}
use cs_1217_operating_system.Fs.Data.{Devices, slice, splice, min, readi}
use cs_1217_operating_system.Fs.Extent.{home_of}
use cs_1217_operating_system.Fs.Extent.Supply.{supply}
use cs_1217_operating_system.Fs.Extent.Whole.{IsWhole}
use cs_1217_operating_system.Fs.Extent.Write.{need, byte}
use cs_1217_operating_system.Fs.Extent.Finish.{extent}
use cs_1217_operating_system.Fs.Extent.Sample
use cs_1217_operating_system.Fs.Extent.Roundtrip.{
  Written, writei_lem, readi_lem, ReadsBack, readi-writei,
}

abbrev no_devices : Devices
no_devices = record { read = λ major. none; write = λ major. none }

-- A file of three bytes
abbrev disk : Fs
disk = Sample.disk 2 3 (λ i. 97 + i)

disk-IsWhole : IsWhole 1 0 disk
disk-IsWhole = Sample.disk-IsWhole 2 3 (λ i. 97 + i) (omega arith)

supply-disk : supply 1 disk ≡ 16
supply-disk = Sample.supply-disk 2 3 (λ i. 97 + i)

abbrev three : Bytes
three i = 65 + i

two_free : need 2 3 ≤ supply 1 disk
two_free = omega (arith, supply-disk)

writei_lem_example : (s' : Fs) × Written no_devices 1 0 three 2 3 disk s'
writei_lem_example =
    writei_lem no_devices 1 0 three 2 3 disk disk-IsWhole (λ e. omega arith) (omega arith)
      (omega arith) two_free

read_two : readi no_devices 0 1 9 disk ≡ some (some (98 ∷ 99 ∷ []), disk)
unfolding slice home_of
read_two =
    readi_lem no_devices 1 0 1 9 disk disk-IsWhole (λ e. omega arith) (omega arith) (omega arith)

readi-writei_example : ReadsBack no_devices 1 0 three 2 3 1 9 disk
readi-writei_example =
    readi-writei no_devices 1 0 three 2 3 1 9 disk disk-IsWhole (λ e. omega arith) (omega arith)
      (omega arith) two_free (omega arith) (omega arith)

-- What is read back is the second byte that the file had, and the three behind it that were written.
read_back :
    slice (splice (byte 1 0 disk) 2 three 3) 1 (min 9 (extent (disk.inode 0).size 2 3 - 1))
    ≡ 98 ∷ 65 ∷ 66 ∷ 67 ∷ []
unfolding slice home_of
read_back = refl
