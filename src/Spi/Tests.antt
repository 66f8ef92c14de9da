-- ===== src/Spi/Tests.antt =====
-- 16_spi_subsytem_basics/my_spi.c with a device that sends back what it gets.
use linux_driver_development.Base.{negsuc, pos, refl, some, ◌≡◌}
use linux_driver_development.Spi.{SpiBus, SpiDevice, my_probe}

abbrev loopback : SpiBus
loopback = record { spi_setup = λ d. negsuc 21; spi_sync = λ d tx. (pos 0, tx) }

abbrev fresh : SpiDevice
fresh = record { mode = 3; max_speed_hz = 500000 }

-- It is used although spi_setup has failed.
set_up_badly :
    my_probe loopback fresh ≡ (pos 0, record { mode = 0; max_speed_hz = 1000000 }, some 0x12)
unfolding my_probe
set_up_badly = refl
