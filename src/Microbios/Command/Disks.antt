-- ===== src/Microbios/Command/Disks.antt =====
-- The commands on disks.
use bhyve_experiments.Base.{◌+◌, ◌/◌, ◌%◌, ◌^◌, ◌<◌, ◌≡◌, refl, ap, arith, List, [], ◌∷◌, ◌++◌}
use bhyve_experiments.Base.{false, length, ltb, leb, some, ◌||◌, length-append, lt→ltb}
use bhyve_experiments.Microbios.{Bios, Disk, disk_at}
use bhyve_experiments.Microbios.Command.{register_disk, disk_params, tell_params}

disk_at-append : (ds : List Disk) (d : Disk) → disk_at (ds ++ d ∷ []) (length ds) ≡ some d
unfolding disk_at
disk_at-append [] d = refl
disk_at-append (x ∷ ds) d = disk_at-append ds d

-- A disk that is registered while there are less than 32 gets the next unit: a command for the
-- parameters of that unit tells its geometry, its number of sectors and their size, and the number
-- of disks.
pub disk_params-register_disk :
    (m : Bios) (d : Disk)
    → length m.disks < 32
    → m.guest_cmd.params.disk ≡ 0x80 + length m.disks
    → (w : Bios) × (disk_params (register_disk m d) ≡ some w)
      × (w.guest_cmd.results ≡ 0)
      × (w.guest_cmd.params ≡ record {
        disk = length m.disks + 1;
        heads = d.h;
        cylinders = d.c;
        sectors = d.s;
        disk_sectors = d.size / d.sectsz;
        sector_size = d.sectsz;
      })
unfolding disk_params register_disk tell_params
disk_params-register_disk m d room asks =
    let place : (0x80 + length m.disks) % 2 ^ 7 ≡ length m.disks = omega arith in
    let known : (ltb (0x80 + length m.disks) 0x80
          || leb (length (m.disks ++ d ∷ [])) (length m.disks))
        ≡ false =
      ground (arith, length-append m.disks (d ∷ [])) in
    rw (lt→ltb (length m.disks) 32 room, asks, place, known, disk_at-append m.disks d)
      (
        _,
        refl,
        refl,
        ap
            (λ n. record {
              disk = n;
              heads = d.h;
              cylinders = d.c;
              sectors = d.s;
              disk_sectors = d.size / d.sectsz;
              sector_size = d.sectsz;
            })
            (length-append m.disks (d ∷ [])),
      )
