-- ===== src/I2cDriver/Tests.antt =====
-- 15_bmp180_i2c_sensor/bmp180_i2c_driver.c where the client cannot be made.
use linux_driver_development.I2cDriver.{my_init}
use linux_driver_development.Base.{[], pos, refl, true, ◌∷◌, ◌≡◌}
use linux_driver_development.Kernel.{
  acquire, bus_adapter, bus_driver, err_ptr, release, touch, valid,
}
use linux_driver_development.Bmp180.Probe.{BusOs}

abbrev no_client : BusOs
no_client = record {
  i2c_add_driver = pos 0;
  i2c_get_adapter = valid;
  i2c_new_client_device = err_ptr 16;
  devm_kzalloc = true;
  sysfs_create_group = pos 0;
}

adapter_kept :
    (my_init no_client).1
    ≡ release bus_driver ∷ touch bus_adapter ∷ acquire bus_adapter ∷ acquire bus_driver ∷ []
unfolding my_init
adapter_kept = refl
