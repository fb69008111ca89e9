-- ===== src/Android.antt =====
-- android/jni: the GATT server that runs over Android's BluetoothGattServer.
pub mod Maps
pub mod GattServer
