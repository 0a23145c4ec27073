-- ===== src/Lock/Stubs.antt =====
-- firmware/avr/src/stubs.c: the responses and events of the Bluetooth module that the lock does not
-- use, one constructor for each handler, which has an empty body there.

pub data SystemRsp : Type 0 where
  ble_rsp_system_reset ble_rsp_system_hello ble_rsp_system_reg_write : SystemRsp
  ble_rsp_system_reg_read ble_rsp_system_get_counters : SystemRsp
  ble_rsp_system_get_connections ble_rsp_system_read_memory : SystemRsp
  ble_rsp_system_get_info ble_rsp_system_endpoint_tx : SystemRsp
  ble_rsp_system_whitelist_append ble_rsp_system_whitelist_remove : SystemRsp
  ble_rsp_system_whitelist_clear ble_rsp_system_endpoint_rx : SystemRsp
  ble_rsp_system_endpoint_set_watermarks ble_rsp_system_aes_setkey : SystemRsp
  ble_rsp_system_aes_encrypt ble_rsp_system_aes_decrypt : SystemRsp

pub data FlashRsp : Type 0 where
  ble_rsp_flash_ps_defrag ble_rsp_flash_ps_dump ble_rsp_flash_ps_erase_all : FlashRsp
  ble_rsp_flash_ps_save ble_rsp_flash_ps_load ble_rsp_flash_ps_erase : FlashRsp
  ble_rsp_flash_erase_page ble_rsp_flash_write_data ble_rsp_flash_read_data : FlashRsp

pub data AttributesRsp : Type 0 where
  ble_rsp_attributes_read ble_rsp_attributes_read_type : AttributesRsp
  ble_rsp_attributes_user_read_response ble_rsp_attributes_user_write_response : AttributesRsp
  ble_rsp_attributes_send : AttributesRsp

pub data ConnectionRsp : Type 0 where
  ble_rsp_connection_disconnect ble_rsp_connection_get_rssi : ConnectionRsp
  ble_rsp_connection_update ble_rsp_connection_version_update : ConnectionRsp
  ble_rsp_connection_channel_map_get ble_rsp_connection_channel_map_set : ConnectionRsp
  ble_rsp_connection_features_get ble_rsp_connection_get_status : ConnectionRsp
  ble_rsp_connection_raw_tx : ConnectionRsp

pub data AttclientRsp : Type 0 where
  ble_rsp_attclient_find_by_type_value ble_rsp_attclient_read_by_group_type : AttclientRsp
  ble_rsp_attclient_read_by_type ble_rsp_attclient_find_information : AttclientRsp
  ble_rsp_attclient_read_by_handle ble_rsp_attclient_attribute_write : AttclientRsp
  ble_rsp_attclient_write_command ble_rsp_attclient_indicate_confirm : AttclientRsp
  ble_rsp_attclient_read_long ble_rsp_attclient_prepare_write : AttclientRsp
  ble_rsp_attclient_execute_write ble_rsp_attclient_read_multiple : AttclientRsp

pub data SmRsp : Type 0 where
  ble_rsp_sm_encrypt_start ble_rsp_sm_set_bondable_mode ble_rsp_sm_delete_bonding : SmRsp
  ble_rsp_sm_set_parameters ble_rsp_sm_passkey_entry ble_rsp_sm_get_bonds : SmRsp
  ble_rsp_sm_set_oob_data ble_rsp_sm_whitelist_bonds : SmRsp

pub data GapRsp : Type 0 where
  ble_rsp_gap_set_privacy_flags ble_rsp_gap_discover ble_rsp_gap_connect_direct : GapRsp
  ble_rsp_gap_end_procedure ble_rsp_gap_connect_selective : GapRsp
  ble_rsp_gap_set_filtering ble_rsp_gap_set_scan_parameters : GapRsp
  ble_rsp_gap_set_directed_connectable_mode : GapRsp

pub data HardwareRsp : Type 0 where
  ble_rsp_hardware_io_port_config_irq ble_rsp_hardware_set_soft_timer : HardwareRsp
  ble_rsp_hardware_adc_read ble_rsp_hardware_io_port_config_direction : HardwareRsp
  ble_rsp_hardware_io_port_config_function ble_rsp_hardware_io_port_config_pull : HardwareRsp
  ble_rsp_hardware_io_port_write ble_rsp_hardware_io_port_read : HardwareRsp
  ble_rsp_hardware_spi_config ble_rsp_hardware_spi_transfer : HardwareRsp
  ble_rsp_hardware_i2c_read ble_rsp_hardware_i2c_write : HardwareRsp
  ble_rsp_hardware_set_txpower ble_rsp_hardware_timer_comparator : HardwareRsp
  ble_rsp_hardware_io_port_irq_enable ble_rsp_hardware_io_port_irq_direction : HardwareRsp
  ble_rsp_hardware_analog_comparator_enable : HardwareRsp
  ble_rsp_hardware_analog_comparator_read : HardwareRsp
  ble_rsp_hardware_analog_comparator_config_irq ble_rsp_hardware_set_rxgain : HardwareRsp
  ble_rsp_hardware_usb_enable : HardwareRsp

pub data TestRsp : Type 0 where
  ble_rsp_test_phy_tx ble_rsp_test_phy_rx ble_rsp_test_phy_end : TestRsp
  ble_rsp_test_phy_reset ble_rsp_test_get_channel_map ble_rsp_test_debug : TestRsp
  ble_rsp_test_channel_mode : TestRsp

pub data DfuRsp : Type 0 where
  ble_rsp_dfu_reset ble_rsp_dfu_flash_set_address ble_rsp_dfu_flash_upload : DfuRsp
  ble_rsp_dfu_flash_upload_finish : DfuRsp

pub data SystemEvt : Type 0 where
  ble_evt_system_debug ble_evt_system_endpoint_watermark_rx : SystemEvt
  ble_evt_system_endpoint_watermark_tx ble_evt_system_script_failure : SystemEvt
  ble_evt_system_no_license_key ble_evt_system_protocol_error : SystemEvt

pub data FlashEvt : Type 0 where
  ble_evt_flash_ps_key : FlashEvt

pub data AttributesEvt : Type 0 where
  ble_evt_attributes_user_read_request ble_evt_attributes_status : AttributesEvt

pub data ConnectionEvt : Type 0 where
  ble_evt_connection_version_ind ble_evt_connection_feature_ind : ConnectionEvt
  ble_evt_connection_raw_rx : ConnectionEvt

pub data AttclientEvt : Type 0 where
  ble_evt_attclient_indicated ble_evt_attclient_procedure_completed : AttclientEvt
  ble_evt_attclient_group_found ble_evt_attclient_attribute_found : AttclientEvt
  ble_evt_attclient_find_information_found ble_evt_attclient_attribute_value : AttclientEvt
  ble_evt_attclient_read_multiple_response : AttclientEvt

pub data SmEvt : Type 0 where
  ble_evt_sm_smp_data ble_evt_sm_bonding_fail ble_evt_sm_passkey_display : SmEvt
  ble_evt_sm_passkey_request ble_evt_sm_bond_status : SmEvt

pub data GapEvt : Type 0 where
  ble_evt_gap_scan_response ble_evt_gap_mode_changed : GapEvt

pub data HardwareEvt : Type 0 where
  ble_evt_hardware_soft_timer ble_evt_hardware_adc_result : HardwareEvt
  ble_evt_hardware_analog_comparator_status : HardwareEvt

pub data DfuEvt : Type 0 where
  ble_evt_dfu_boot : DfuEvt

pub data StubMessage : Type 0 where
  rsp_system_stub : SystemRsp → StubMessage
  rsp_flash_stub : FlashRsp → StubMessage
  rsp_attributes_stub : AttributesRsp → StubMessage
  rsp_connection_stub : ConnectionRsp → StubMessage
  rsp_attclient_stub : AttclientRsp → StubMessage
  rsp_sm_stub : SmRsp → StubMessage
  rsp_gap_stub : GapRsp → StubMessage
  rsp_hardware_stub : HardwareRsp → StubMessage
  rsp_test_stub : TestRsp → StubMessage
  rsp_dfu_stub : DfuRsp → StubMessage
  evt_system_stub : SystemEvt → StubMessage
  evt_flash_stub : FlashEvt → StubMessage
  evt_attributes_stub : AttributesEvt → StubMessage
  evt_connection_stub : ConnectionEvt → StubMessage
  evt_attclient_stub : AttclientEvt → StubMessage
  evt_sm_stub : SmEvt → StubMessage
  evt_gap_stub : GapEvt → StubMessage
  evt_hardware_stub : HardwareEvt → StubMessage
  evt_dfu_stub : DfuEvt → StubMessage
