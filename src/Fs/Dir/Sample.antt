-- ===== src/Fs/Dir/Sample.antt =====
-- assignment-3/fs.c: a small disk with a directory, for runs.
use cs_1217_operating_system.Base.{refl, none, if◌then◌else◌, ◌==◌, arith}
use cs_1217_operating_system.Fs.{Fs}
use cs_1217_operating_system.Fs.Bytes.{Bytes}
use cs_1217_operating_system.Fs.Data.{Devices}
use cs_1217_operating_system.Fs.Extent.Sample as Small
use cs_1217_operating_system.Fs.Dir.Entries.{IsDir}

abbrev pub no_devices : Devices
no_devices = record { read = λ major. none; write = λ major. none }

-- The entries ".", ".." and "a"
abbrev pub entries : Bytes
entries i =
    if i == 0
    then 1
    else if i == 2
    then 46
    else if i == 16
    then 1
    else if i == 18
    then 46
    else if i == 19
    then 46
    else if i == 32
    then 7
    else if i == 34
    then 97
    else 0

abbrev pub disk : Fs
disk = Small.disk 1 48 entries

pub disk-IsDir : IsDir no_devices 1 0 disk
disk-IsDir = record {
  whole = Small.disk-IsWhole 1 48 entries (omega arith);
  is_dir = refl;
  aligned = refl;
}
